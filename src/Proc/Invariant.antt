-- ===== src/Proc/Invariant.antt =====
-- The process table of kernel/proc.c: an unused entry has pid 0, and the pids of the others differ.
use paddle_os.Prelude.{
  Bool-cases, put, step_over, ℕ, zero, suc, ◌+◌, ◌≤◌, ◌<◌, ◌≡◌, inl, inr, true, false, Option, none,
  some, arith,
}
use paddle_os.Proc.{Proc, Table, is_unused, find_unused}

pub record IsTable (t : Table) : Type 0 where
  pub free_pid : (i : ℕ) → is_unused (t.procs i).state ≡ true → (t.procs i).pid ≡ 0
  pub live_pid :
      (i : ℕ)
      → is_unused (t.procs i).state ≡ false
      → (0 < (t.procs i).pid) × ((t.procs i).pid < t.nextpid)
  pub pids_differ :
      (i j : ℕ)
      → is_unused (t.procs i).state ≡ false
      → is_unused (t.procs j).state ≡ false
      → (t.procs i).pid ≡ (t.procs j).pid
      → i ≡ j
  pub next_pid : 0 < t.nextpid

-- how `allocproc` finds its entry
pub data Found (left i : ℕ) (ps : ℕ → Proc) : Option ℕ → Type 0 where
  first :
      (k : ℕ)
      → i ≤ k
      → k < i + left
      → is_unused (ps k).state ≡ true
      → ((j : ℕ) → i ≤ j → j < k → is_unused (ps j).state ≡ false)
      → Found left i ps (some k)
  all_used :
      ((j : ℕ) → i ≤ j → j < i + left → is_unused (ps j).state ≡ false) → Found left i ps none

Found-later :
    (left i : ℕ) (ps : ℕ → Proc) (r : Option ℕ)
    → is_unused (ps i).state ≡ false
    → Found left (suc i) ps r
    → Found (suc left) i ps r
Found-later left i ps r n (first k a b e f) =
    first k (omega (arith, a)) (omega (arith, b)) e
      (λ j c d. step_over (λ j. is_unused (ps j).state ≡ false) i j n (λ l. f j l d) c)
Found-later left i ps r n (all_used f) = all_used (λ j c d.
    step_over (λ j. is_unused (ps j).state ≡ false) i j n (λ l. f j l (omega (arith, d))) c)

pub find_unused_lem : (left i : ℕ) (ps : ℕ → Proc) → Found left i ps (find_unused left i ps)
unfolding find_unused
find_unused_lem zero i ps = all_used (λ j a b. absurd (omega (arith, a, b)))
find_unused_lem (suc left) i ps = elim (Bool-cases (is_unused (ps i).state)) [
  | inl e ↦ rw e (first i (omega arith) (omega arith) e (λ j a b. absurd (omega (arith, a, b))))
  | inr e ↦
      rw e (Found-later left i ps (find_unused left (suc i) ps) e (find_unused_lem left (suc i) ps))
]

pub IsTable-freed :
    (t : Table) (i : ℕ) (p : Proc) (next : ℕ)
    → IsTable t
    → is_unused p.state ≡ true
    → p.pid ≡ 0
    → t.nextpid ≤ next
    → IsTable (record { procs = put t.procs i p; nextpid = next })
IsTable-freed t i p next h u z le = record {
  free_pid = λ j e. ground (arith, u, z, h.free_pid j, e);
  live_pid = λ j e. ground (arith, u, z, le, h.live_pid j, e);
  pids_differ = λ j k a b e. ground (arith, u, z, h.pids_differ j k, a, b, e);
  next_pid = omega (arith, h.next_pid, le);
}

pub IsTable-taken :
    (t : Table) (i : ℕ) (p : Proc) (next : ℕ)
    → IsTable t
    → is_unused p.state ≡ false
    → p.pid ≡ t.nextpid
    → next ≡ t.nextpid + 1
    → IsTable (record { procs = put t.procs i p; nextpid = next })
IsTable-taken t i p next h u z n = record {
  free_pid = λ j e. ground (arith, u, z, h.free_pid j, e);
  live_pid = λ j e. ground (arith, u, z, n, h.next_pid, h.live_pid j, e);
  pids_differ =
      λ j k a b e. ground (arith, u, z, h.live_pid j, h.live_pid k, h.pids_differ j k, a, b, e);
  next_pid = omega (arith, n);
}

-- A change of an entry that keeps its pid and whether it is unused.
pub IsTable-kept :
    (t : Table) (ps : ℕ → Proc)
    → IsTable t
    → ((j : ℕ) → is_unused (ps j).state ≡ is_unused (t.procs j).state)
    → ((j : ℕ) → (ps j).pid ≡ (t.procs j).pid)
    → IsTable (record t { procs = ps })
IsTable-kept t ps h u e = record {
  free_pid = λ j a. ground (arith, u j, e j, h.free_pid j, a);
  live_pid = λ j a. ground (arith, u j, e j, h.live_pid j, a);
  pids_differ = λ j k a b q. ground (arith, u j, u k, e j, e k, h.pids_differ j k, a, b, q);
  next_pid = h.next_pid;
}
