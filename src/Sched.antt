-- ===== src/Sched.antt =====
-- kernel/proc.c: `sleep`, `wakeup`, `sched` and the scheduler, in every interleaving, for processes that
-- wait for a condition and processes that make it true. The condition is data that the lock `lk`
-- guards: a process sleeps with `while (!cond) sleep(chan, &lk);`, and one that sets the condition calls
-- `wakeup(chan)` before it releases `lk`. Taking a spin lock is one step, as Spinlock shows that it
-- excludes; each shared access between two lock operations is a step of its own. `p->lock` goes over
-- from a process to the scheduler in `swtch`, and stays under the process's name here.
pub mod Locks
pub mod Rest
pub mod Wakeups
mod Tests
use paddle_os.Prelude.{put, ℕ, suc, ◌<◌, ◌≡◌, ◌≢◌, Bool, true, false, Option, none, some}
use paddle_os.Proc.{Proc, ProcState, sleeping, runnable, running, nproc, wake}

-- Where a process is.
pub data Stage : Type 0 where
  outside : Stage  -- without `lk`
  inside : Stage  -- with `lk`
  falling : Stage  -- in `sleep`, with `lk` and `p->lock`
  dozing : Stage  -- `lk` is released
  parked : Stage  -- `p->state` is set, up to `swtch`
  suspended : Stage  -- the scheduler has released `p->lock`
  resumed : Stage  -- the scheduler has taken `p->lock` and switched back
  returning : Stage  -- `p->lock` is released, before `acquire(lk)`
  waking : ℕ → Stage  -- in `wakeup`, at an entry of the table
  waking_at : ℕ → Stage  -- with the lock of that entry

pub record System : Type 0 where
  pub lk : Option ℕ
  pub cond : Bool
  pub plock : ℕ → Option ℕ
  pub procs : ℕ → Proc
  pub pc : ℕ → Stage

-- The process `me` goes on to `pc`.
abbrev pub move : (me : ℕ) → Stage → System → System
move me pc s = record s { pc = put s.pc me pc }

module _ (chan : ℕ) where
  pub data Step (s : System) : System → Type 0 where
    enter :
        (me : ℕ)
        → s.pc me ≡ outside
        → s.lk ≡ none
        → Step s (move me inside (record s { lk = some me }))
    leave : (me : ℕ) → s.pc me ≡ inside → Step s (move me outside (record s { lk = none }))
    consume : (me : ℕ) → s.pc me ≡ inside → s.cond ≡ true → Step s (record s { cond = false })
    lock_self :
        (me : ℕ)
        → s.pc me ≡ inside
        → s.cond ≡ false
        → me < nproc
        → s.plock me ≡ none
        → Step s (move me falling (record s { plock = put s.plock me (some me) }))
    unlock : (me : ℕ) → s.pc me ≡ falling → Step s (move me dozing (record s { lk = none }))
    set_sleeping :
        (me : ℕ)
        → s.pc me ≡ dozing
        → Step s (
            move me parked (record s {
              procs = put s.procs me (record (s.procs me) { chan = chan; state = sleeping });
            }))
    switch_out :
        (me : ℕ)
        → s.pc me ≡ parked
        → Step s (move me suspended (record s { plock = put s.plock me none }))
    schedule :
        (me : ℕ)
        → s.pc me ≡ suspended
        → (s.procs me).state ≡ runnable
        → s.plock me ≡ none
        → Step s (
            move me resumed (record s {
              plock = put s.plock me (some me);
              procs = put s.procs me (record (s.procs me) { state = running });
            }))
    unlock_self :
        (me : ℕ)
        → s.pc me ≡ resumed
        → Step s (
            move me returning (record s {
              plock = put s.plock me none;
              procs = put s.procs me (record (s.procs me) { chan = 0 });
            }))
    relock :
        (me : ℕ)
        → s.pc me ≡ returning
        → s.lk ≡ none
        → Step s (move me inside (record s { lk = some me }))
    set_cond : (me : ℕ) → s.pc me ≡ inside → Step s (move me (waking 0) (record s { cond = true }))
    skip_self : (me : ℕ) → s.pc me ≡ waking me → Step s (move me (waking (suc me)) s)
    lock_entry :
        (me i : ℕ)
        → s.pc me ≡ waking i
        → i < nproc
        → me ≢ i
        → s.plock i ≡ none
        → Step s (move me (waking_at i) (record s { plock = put s.plock i (some me) }))
    wake_entry :
        (me i : ℕ)
        → s.pc me ≡ waking_at i
        → Step s (
            move me (waking (suc i)) (record s {
              plock = put s.plock i none;
              procs = put s.procs i (wake chan (s.procs i));
            }))
    -- `kill` of another process
    stir :
        (p : ℕ)
        → s.plock p ≡ none
        → Step s (record s { procs = put s.procs p (wake (s.procs p).chan (s.procs p)) })
    woken_all : (me : ℕ) → s.pc me ≡ waking nproc → Step s (move me inside s)

  -- At the start no process has a lock or sleeps.
  pub data Reaches (procs : ℕ → Proc) : System → Type 0 where
    start :
        ((p : ℕ) → (procs p).state ≡ running)
        → Reaches procs (record {
          lk = none;
          cond = false;
          plock = λ p. none;
          procs = procs;
          pc = λ p. outside;
        })
    step : {s s' : System} → Reaches procs s → Step s s' → Reaches procs s'
