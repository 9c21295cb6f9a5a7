-- ===== src/Proc/Keeps.antt =====
-- `wakeup`, `kill` and `wait` of kernel/proc.c against the table of Proc/Invariant.
use paddle_os.Prelude.{ℕ, ◌≡◌, refl, Bool, true, false, arith}
use paddle_os.Proc.{
  Proc, ProcState, Table, nproc, unused, used, sleeping, runnable, running, zombie, is_unused,
  is_sleeping, setkilled, kill_entry, kill, wake, wakeup, freeproc, Waited, wait,
}
use paddle_os.Proc.Invariant.{IsTable, IsTable-kept, IsTable-freed}
use paddle_os.Proc.Wakeup.{wakeup-wake}
use paddle_os.Proc.Kill.{Killed, marked, nobody, kill_lem}
use paddle_os.Proc.Wait.{WaitPass, reaps, no_copy, no_child, was_killed, sleeps, wait_lem}

sleeping_used : (s : ProcState) → is_sleeping s ≡ true → is_unused s ≡ false
sleeping_used unused e = cc
sleeping_used used e = refl
sleeping_used sleeping e = refl
sleeping_used runnable e = refl
sleeping_used running e = refl
sleeping_used zombie e = refl

wake-kept :
    (chan : ℕ) (p : Proc)
    → (is_unused (wake chan p).state ≡ is_unused p.state) × ((wake chan p).pid ≡ p.pid)
unfolding wake
wake-kept chan p = ground (arith, sleeping_used p.state)

kill_entry-kept :
    (p : Proc) → (is_unused (kill_entry p).state ≡ is_unused p.state) × ((kill_entry p).pid ≡ p.pid)
unfolding kill_entry setkilled
kill_entry-kept p = ground (arith, sleeping_used p.state)

wakeup-kept :
    (me chan : ℕ) (ps : ℕ → Proc) (j : ℕ)
    → (is_unused (wakeup me chan ps j).state ≡ is_unused (ps j).state)
      × ((wakeup me chan ps j).pid ≡ (ps j).pid)
wakeup-kept me chan ps j = ground (arith, wakeup-wake me chan ps j, wake-kept chan (ps j))

kill-kept :
    (pid : ℕ) (ps : ℕ → Proc) (r : Bool × (ℕ → Proc)) (j : ℕ)
    → Killed nproc 0 pid ps r
    → (is_unused (r.1 j).state ≡ is_unused (ps j).state) × ((r.1 j).pid ≡ (ps j).pid)
kill-kept pid ps r j (marked k a b e f) = ground (arith, kill_entry-kept (ps k))
kill-kept pid ps r j (nobody f) = (refl, refl)

IsTable-waited :
    (copied : ℕ → Bool) (me : ℕ) (t : Table) (r : Waited × (ℕ → Proc))
    → IsTable t
    → WaitPass copied nproc 0 me false t.procs r
    → IsTable (record t { procs = r.1 })
unfolding freeproc
IsTable-waited copied me t r h (reaps k x y e f c) =
    IsTable-freed t k _ t.nextpid h refl refl (omega arith)
IsTable-waited copied me t r h (no_copy k x y e c) = h
IsTable-waited copied me t r h (no_child e f) = h
IsTable-waited copied me t r h (was_killed e f) = h
IsTable-waited copied me t r h (sleeps e w f) = h

-- `wakeup`, `kill` and `wait` keep the pids of the live processes distinct and the unused entries
-- at pid 0.
pub IsTable-operations :
    (t : Table) (copied : ℕ → Bool) (me chan pid : ℕ)
    → IsTable t
    → IsTable (record t { procs = wakeup me chan t.procs })
      × IsTable (record t { procs = (kill pid t.procs).1 })
      × IsTable (record t { procs = (wait copied me t.procs).1 })
IsTable-operations t copied me chan pid h = (
  IsTable-kept t _ h (λ j. (wakeup-kept me chan t.procs j).0)
      (λ j. (wakeup-kept me chan t.procs j).1),
  IsTable-kept t _ h (λ j. (kill-kept pid t.procs (kill pid t.procs) j (kill_lem pid t.procs)).0)
      (λ j. (kill-kept pid t.procs (kill pid t.procs) j (kill_lem pid t.procs)).1),
  IsTable-waited copied me t (wait copied me t.procs) h (wait_lem copied me t.procs),
)
