-- ===== src/Spinlock/Interrupts.antt =====
-- Nested calls of `push_off` and `pop_off` of kernel/spinlock.c.
use paddle_os.Prelude.{
  ◌==◌, if◌then◌else◌, Outcome, ◌>>=◌, ℕ, zero, suc, ◌-◌, ◌<◌, ◌≡◌, refl, Bool, true, false, ◌&&◌,
  Option, none, some, List, [], ◌∷◌, arith, ok,
}
use mathlib.Core.Path.{subst}
use paddle_os.Spinlock.{Cpu, push_off, pop_off}

pub data Op : Type 0 where
  push pop : Op

unfoldable pub run : List Op → Cpu → Outcome Cpu
run [] c = ok c
run (push ∷ ops) c = run ops (push_off c)
run (pop ∷ ops) c = pop_off c >>= run ops

-- how deep the calls nest in the end, from depth `d`; `none` if a `pop` has no `push`
unfoldable pub depth : ℕ → List Op → Option ℕ
depth d [] = some d
depth d (push ∷ ops) = depth (suc d) ops
depth zero (pop ∷ ops) = none
depth (suc d) (pop ∷ ops) = depth d ops

-- at depth `d`, started with the interrupts at `before`
pub record IsNested (before : Bool) (d : ℕ) (c : Cpu) : Type 0 where
  pub level : c.noff ≡ d
  pub enabled : c.intr ≡ (if d == 0 then before else false)
  pub saved : 0 < d → c.intena ≡ before

push_off-IsNested :
    {before : Bool} {d : ℕ} {c : Cpu} → IsNested before d c → IsNested before (suc d) (push_off c)
unfolding push_off
push_off-IsNested v = ground arith

pop_off-IsNested :
    {before : Bool} {d : ℕ} {c : Cpu}
    → IsNested before (suc d) c
    → (c' : Cpu) × (pop_off c ≡ ok c') × IsNested before d c'
unfolding pop_off
pop_off-IsNested {before} {d} {c} v = (
  record c { noff = c.noff - 1; intr = if (c.noff - 1 == 0) && c.intena then true else c.intr },
  ground (arith, v.saved (omega arith)),
  ground (arith, v.saved (omega arith)),
)

run-IsNested :
    (ops : List Op) {before : Bool} {d e : ℕ} {c : Cpu}
    → IsNested before d c
    → depth d ops ≡ some e
    → (c' : Cpu) × (run ops c ≡ ok c') × IsNested before e c'
unfolding run depth
run-IsNested [] {before} {d} {e} {c} v h = (c, refl, same e h)
  where
    same : (e : ℕ) → some d ≡ some e → IsNested before e c
    same e h = let p : d ≡ e = cc in subst (λ n. IsNested before n c) p v
run-IsNested (push ∷ ops) v h = run-IsNested ops (push_off-IsNested v) h
run-IsNested (pop ∷ ops) {d = zero} v h = cc
run-IsNested (pop ∷ ops) {d = suc d} v h =
    let (c1, e1, v1) = pop_off-IsNested v in
    let (c', e', v') = run-IsNested ops v1 h in (c', rw e1 e', v')

-- From a CPU with nothing pushed, any calls in which each `pop_off` has its `push_off` run without
-- a panic; as long as one is still open the interrupts are off, and when none is they are as before.
pub run-balanced :
    (ops : List Op) (c : Cpu) (e : ℕ)
    → c.noff ≡ 0
    → depth 0 ops ≡ some e
    → (c' : Cpu) × (run ops c ≡ ok c')
      × (c'.noff ≡ e)
      × (c'.intr ≡ (if e == 0 then c.intr else false))
run-balanced ops c e z h =
    let (c', done, v) = run-IsNested ops {before = c.intr} {d = 0} {c = c} (ground arith) h in
    (c', done, v.level, v.enabled)
