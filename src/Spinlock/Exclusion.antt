-- ===== src/Spinlock/Exclusion.antt =====
-- Mutual exclusion of the spin locks: an invariant of the interleaved system.
mod Moves
use paddle_os.Prelude.{
  Bool-cases, put, ℕ, ◌≡◌, refl, inl, inr, true, false, Option, none, some, arith,
}
use paddle_os.Spinlock.{Cpu, Spinlock, initlock, holding, is_cpu}
use paddle_os.Spinlock.System.{
  Pc, outside, panicked, Thread, Locks, Move, System, Step, pick, init, Reach, here, later,
  acquire_cpu, release_locked, release_cpu,
}
use Moves.{pc_owns, owns, named, named-owns, gain, keep, free, name, same, trace, split}

record Inv (ls : Locks) (ts : ℕ → Thread) : Type 0 where
  only : (i j k : ℕ) → owns (ts i) k ≡ true → owns (ts j) k ≡ true → i ≡ j
  apart : (i k : ℕ) → pc_owns (ts i).pc k ≡ true → (ts i).held k ≡ false
  busy : (i k : ℕ) → owns (ts i) k ≡ true → (ls k).locked ≡ true
  mine : (i k : ℕ) → named (ts i) k ≡ true → (ls k).cpu ≡ some i
  back : (i k : ℕ) → (ls k).cpu ≡ some i → named (ts i) k ≡ true

module _ {ls : Locks} {ts : ℕ → Thread} (inv : Inv ls ts) (me : ℕ) {ls' : Locks} {t : Thread}
    (mv : Move me ls (ts me) ls' t) where
  only' : (i j k : ℕ) → owns (put ts me t i) k ≡ true → owns (put ts me t j) k ≡ true → i ≡ j
  only' i j k hi hj = ground (
    arith,
    inv.only i j k,
    inv.only me j k,
    inv.only i me k,
    gain mv k,
    inv.busy i k,
    inv.busy j k,
  )

  busy' : (i k : ℕ) → owns (put ts me t i) k ≡ true → (ls' k).locked ≡ true
  busy' i k h = elim (Bool-cases (ls' k).locked) [
    | inl yes' ↦ yes'
    | inr no' ↦ ground (
      arith,
      keep mv k (inv.apart me k) (inv.busy me k),
      free mv k no',
      inv.busy i k,
      inv.only i me k,
    )
  ]

Move-Inv :
    {ls : Locks} {ts : ℕ → Thread} (inv : Inv ls ts) (me : ℕ) {ls' : Locks} {t : Thread}
    → Move me ls (ts me) ls' t
    → Inv ls' (put ts me t)
Move-Inv {ls} {ts} inv me {ls'} {t} mv = record {
  only = only' inv me mv;
  apart = λ i k h. ground (arith, inv.apart i k, inv.busy me k, split mv k);
  busy = busy' inv me mv;
  mine = λ i k h. ground (
    arith,
    named-owns ((ts i).held k) (ts i).pc k,
    name mv k (inv.apart me k) (inv.mine me k),
    same mv k,
    inv.mine i k,
    inv.only i me k,
  );
  back = λ i k h.
      ground (arith, trace mv k (inv.busy me k) (inv.mine me k) (inv.back me k) i h, inv.back i k);
}

Step-Inv : {s u : System} → Step s u → Inv s.locks s.threads → Inv u.locks u.threads
Step-Inv (pick me mv) inv = Move-Inv inv me mv

init-Inv : (cpus : ℕ → Cpu) → Inv (init cpus).locks (init cpus).threads
unfolding init
init-Inv cpus = record {
  only = λ i j k hi hj. cc;
  apart = λ i k h. refl;
  busy = λ i k h. cc;
  mine = λ i k h. cc;
  back = λ i k h. cc;
}

Reach-Inv : (cpus : ℕ → Cpu) {s : System} → Reach (init cpus) s → Inv s.locks s.threads
Reach-Inv cpus here = init-Inv cpus
Reach-Inv cpus (later r st) = Step-Inv st (Reach-Inv cpus r)

-- In every reachable state, two CPUs never hold the same lock: at most one has returned from
-- `acquire` and not yet called `release`.
pub mutual_exclusion :
    (cpus : ℕ → Cpu) {s : System}
    → Reach (init cpus) s
    → (i j l : ℕ) → (s.threads i).held l ≡ true
    → (s.threads j).held l ≡ true
    → i ≡ j
mutual_exclusion cpus r i j l hi hj =
    (Reach-Inv cpus r).only i j l (ground (arith, hi)) (ground (arith, hj))

is_cpu-eq : (c : Option ℕ) (i : ℕ) → is_cpu c i ≡ true → c ≡ some i
is_cpu-eq none i h = cc
is_cpu-eq (some j) i h = ground arith

-- In every reachable state, `holding` tells a CPU that is outside the lock functions exactly
-- whether it holds the lock. So `acquire` panics only on a lock that its CPU already holds, and
-- `release` lets the CPU's own locks through.
pub holding_exact :
    (cpus : ℕ → Cpu) {s : System}
    → Reach (init cpus) s
    → (i l : ℕ) → (s.threads i).pc ≡ outside
    → holding i (s.locks l) ≡ (s.threads i).held l
unfolding holding
holding_exact cpus {s} r i l e =
    let inv : Inv s.locks s.threads = Reach-Inv cpus r in
    elim (Bool-cases ((s.threads i).held l)) [
      | inl h ↦ rw (inv.busy i l (rw h), inv.mine i l (rw h)) (ground (arith, h))
      | inr h ↦ ground (arith, h, is_cpu-eq (s.locks l).cpu i, inv.back i l)
    ]
