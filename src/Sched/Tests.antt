-- ===== src/Sched/Tests.antt =====
-- Process 1 sleeps on the channel 7, and process 2 has set the condition.
use paddle_os.Prelude.{put, ℕ, ◌≡◌, refl, ◌≢◌, true, false, none, some, arith}
use paddle_os.Proc.{Proc, running, sleeping}
use paddle_os.Sched.{
  inside, falling, dozing, parked, waking, outside, System, move, enter, lock_self, unlock,
  set_sleeping, set_cond, Reaches, start, step,
}
use paddle_os.Sched.Rest.{pending}
use paddle_os.Sched.Wakeups.{no_lost_wakeup}

abbrev procs : ℕ → Proc
procs p = record {
  state = running;
  chan = 0;
  killed = false;
  xstate = 0;
  pid = p;
  parent = none;
  sz = 0;
  pagetable = 0;
  trapframe = 0;
}

abbrev at_start : System
at_start = record { lk = none; cond = false; plock = λ p. none; procs = procs; pc = λ p. outside }

abbrev entered : (me : ℕ) → System → System
entered me s = move me inside (record s { lk = some me })

abbrev self_locked : System
self_locked = move 1 falling (record (entered 1 at_start) { plock = put at_start.plock 1 (some 1) })

abbrev unlocked : System
unlocked = move 1 dozing (record self_locked { lk = none })

abbrev asleep : System
asleep =
    move 1 parked
      (record unlocked { procs = put procs 1 (record (procs 1) { chan = 7; state = sleeping }) })

abbrev condition_set : System
condition_set = move 2 (waking 0) (record (entered 2 asleep) { cond = true })

condition_set-Reaches : Reaches 7 procs condition_set
condition_set-Reaches =
    step
      (step
        (step
          (step
            (step (step (start (λ p. refl)) (enter 1 refl refl))
              (lock_self 1 refl refl (omega arith) refl))
            (unlock 1 refl))
          (set_sleeping 1 refl))
        (enter 2 refl refl))
      (set_cond 2 refl)

no_lost_wakeup_example :
    (w : ℕ) × (w ≢ 1) × (pending 1 (condition_set.pc w) ≡ true) × (condition_set.lk ≡ some w)
no_lost_wakeup_example = no_lost_wakeup 7 procs condition_set condition_set-Reaches refl 1 refl
