-- ===== src/Proc/KillZero.antt =====
-- `kill(0)` of kernel/proc.c, where 0 is the pid of an unused entry.
use paddle_os.Prelude.{
  put, ℕ, zero, suc, ◌<◌, ◌≡◌, refl, transport, ap, ◌∙◌, ◌≢◌, Bool, true, false, some, arith,
}
use paddle_os.Proc.{
  unused, used, sleeping, runnable, running, zombie, Proc, ProcState, Table, nproc, is_sleeping,
  is_unused, setkilled, kill_entry, kill, find_unused, allocproc, allocproc_found,
}
use paddle_os.Proc.Invariant.{IsTable, Found, first, find_unused_lem}
use paddle_os.Proc.Kill.{Killed, marked, nobody, kill_lem}

find_unused-same :
    (left i : ℕ) (ps qs : ℕ → Proc)
    → ((j : ℕ) → is_unused (ps j).state ≡ is_unused (qs j).state)
    → find_unused left i ps ≡ find_unused left i qs
unfolding find_unused
find_unused-same zero i ps qs e = refl
find_unused-same (suc left) i ps qs e = rw (e i) (rw (find_unused-same left (suc i) ps qs e) refl)

awake : (s : ProcState) → is_unused s ≡ true → is_sleeping s ≡ false
awake unused e = refl
awake used e = refl
awake sleeping e = cc
awake runnable e = refl
awake running e = refl
awake zombie e = refl

is_unused-kill_entry :
    (p : Proc) → is_unused p.state ≡ true → kill_entry p ≡ record p { killed = true }
unfolding kill_entry setkilled
is_unused-kill_entry p e = rw (awake p.state e) refl

same_place : (ps : ℕ → Proc) (m k : ℕ) → ¬ (m < k) → ¬ (k < m) → m ≡ k
same_place ps m k a b = omega (arith, a, b)

module _ (t : Table) (h : IsTable t) (k : ℕ) where
  live : (m : ℕ) → is_unused (t.procs m).state ≡ false → (t.procs m).pid ≢ 0
  live m u z = omega (arith, (h.live_pid m u).0, z)

  first_unused :
      Found nproc 0 t.procs (some k)
      → (k < nproc)
        × (is_unused (t.procs k).state ≡ true)
        × ((j : ℕ) → j < k → is_unused (t.procs j).state ≡ false)
  first_unused (first k' a b u f) = (omega (arith, b), u, λ j c. f j (omega arith) c)

  kill-zero :
      (r : Bool × (ℕ → Proc))
      → Found nproc 0 t.procs (some k)
      → Killed nproc 0 0 t.procs r
      → r ≡ (true, put t.procs k (kill_entry (t.procs k)))
  kill-zero r found (marked m a b z f) =
      let (c, u, g) = first_unused found in
      let e : m ≡ k =
        same_place t.procs m k (λ l. live m (g m l) z)
          (λ l. f k (omega arith) l (h.free_pid k u)) in
      ap (λ m. (true, put t.procs m (kill_entry (t.procs m)))) e
  kill-zero r found (nobody f) =
      let (c, u, g) = first_unused found in
      absurd (f k (omega arith) (omega (arith, c)) (h.free_pid k u))

allocproc-at :
    (t : Table) (trapframe pagetable k : ℕ)
    → find_unused nproc 0 t.procs ≡ some k
    → 0 < trapframe
    → 0 < pagetable
    → ((allocproc trapframe pagetable t).0 ≡ some k)
      × (((allocproc trapframe pagetable t).1.procs k).killed ≡ (t.procs k).killed)
unfolding allocproc_found allocproc
allocproc-at t trapframe pagetable k e a b = rw (e, allocproc) (ground (arith, a, b))

module _ (t : Table) (k : ℕ) (u : is_unused (t.procs k).state ≡ true) where
  abbrev marked_procs : ℕ → Proc
  marked_procs = put t.procs k (kill_entry (t.procs k))

  is_unused-marked_procs : (j : ℕ) → is_unused (marked_procs j).state ≡ is_unused (t.procs j).state
  is_unused-marked_procs j = ground (arith, is_unused-kill_entry (t.procs k) u)

  killed-marked_procs : (marked_procs k).killed ≡ true
  killed-marked_procs = ground (arith, is_unused-kill_entry (t.procs k) u)

-- `kill(0)` of a table with an unused entry answers 0 instead of -1 and marks that entry, and the
-- next process that `allocproc` hands out has this entry and is killed from the start.
pub kill-allocproc :
    (t : Table) (trapframe pagetable k : ℕ)
    → IsTable t
    → find_unused nproc 0 t.procs ≡ some k
    → 0 < trapframe
    → 0 < pagetable
    → ((kill 0 t.procs).0 ≡ true)
      × ((allocproc trapframe pagetable (record t { procs = (kill 0 t.procs).1 })).0 ≡ some k)
      × (((allocproc trapframe pagetable (record t { procs = (kill 0 t.procs).1 })).1.procs
            k).killed
          ≡ true)
kill-allocproc t trapframe pagetable k h e a b =
    let found : Found nproc 0 t.procs (some k) =
      transport (λ i. Found nproc 0 t.procs (e i)) (find_unused_lem nproc 0 t.procs) in
    let (c, u, g) = first_unused t h k found in
    let ps = marked_procs t k u in
    let same : kill 0 t.procs ≡ (true, ps) =
      kill-zero t h k (kill 0 t.procs) found (kill_lem 0 t.procs) in
    let (d, q) =
      allocproc-at (record t { procs = ps }) trapframe pagetable k
        (find_unused-same nproc 0 ps t.procs (is_unused-marked_procs t k u) ∙ e) a b in
    rw same (refl, d, q ∙ killed-marked_procs t k u)
