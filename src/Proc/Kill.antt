-- ===== src/Proc/Kill.antt =====
-- `kill` of kernel/proc.c.
use paddle_os.Prelude.{
  ◌==◌, Bool-cases, put, step_over, ℕ, zero, suc, ◌+◌, ◌≤◌, ◌<◌, ◌≡◌, ◌≢◌, inl, inr, Bool, true,
  false, arith,
}
use paddle_os.Proc.{Proc, nproc, kill_entry, kill_from, kill}

-- What `kill` did with the entries from `i` on: it marked the first that has the pid, or found none.
pub data Killed (left i pid : ℕ) (ps : ℕ → Proc) : Bool × (ℕ → Proc) → Type 0 where
  marked :
      (k : ℕ)
      → i ≤ k
      → k < i + left
      → (ps k).pid ≡ pid
      → ((j : ℕ) → i ≤ j → j < k → (ps j).pid ≢ pid)
      → Killed left i pid ps (true, put ps k (kill_entry (ps k)))
  nobody : ((j : ℕ) → i ≤ j → j < i + left → (ps j).pid ≢ pid) → Killed left i pid ps (false, ps)

Killed-later :
    (left i pid : ℕ) (ps : ℕ → Proc) (r : Bool × (ℕ → Proc))
    → (ps i).pid ≢ pid
    → Killed left (suc i) pid ps r
    → Killed (suc left) i pid ps r
Killed-later left i pid ps r n (marked k a b e f) =
    marked k (omega (arith, a)) (omega (arith, b)) e
      (λ j c d. step_over (λ j. (ps j).pid ≢ pid) i j n (λ l. f j l d) c)
Killed-later left i pid ps r n (nobody f) =
    nobody (λ j c d. step_over (λ j. (ps j).pid ≢ pid) i j n (λ l. f j l (omega (arith, d))) c)

kill_from_lem : (left i pid : ℕ) (ps : ℕ → Proc) → Killed left i pid ps (kill_from left i pid ps)
unfolding kill_from
kill_from_lem zero i pid ps = nobody (λ j a b. absurd (omega (arith, a, b)))
kill_from_lem (suc left) i pid ps = elim (Bool-cases ((ps i).pid == pid)) [
  | inl e ↦ rw e (
      marked i (omega arith) (omega arith) (ground (arith, e))
        (λ j a b. absurd (omega (arith, a, b))))
  | inr e ↦
      rw e (
        Killed-later left i pid ps _ (λ q. ground (arith, e, q))
          (kill_from_lem left (suc i) pid ps))
]

-- `kill` marks the first entry of the table that has the pid, and wakes it if it sleeps; it
-- answers -1, and changes nothing, exactly where no entry has it.
pub kill_lem : (pid : ℕ) (ps : ℕ → Proc) → Killed nproc 0 pid ps (kill pid ps)
unfolding kill
kill_lem pid ps = kill_from_lem nproc 0 pid ps
