-- ===== src/Sched/Rest.antt =====
-- The states of the processes that sleep and wake each other, in kernel/proc.c.
use paddle_os.Prelude.{leb, ℕ, ◌<◌, ◌≡◌, ◌≢◌, ◌⊎◌, Bool, true, false, arith}
use paddle_os.Proc.{Proc, is_sleeping, wake, nproc}
use paddle_os.Sched.{
  Stage, inside, falling, dozing, parked, suspended, resumed, waking, waking_at, outside, returning,
  System, Step, enter, leave, consume, lock_self, unlock, set_sleeping, switch_out, schedule,
  unlock_self, relock, set_cond, skip_self, lock_entry, wake_entry, stir, woken_all,
}
use paddle_os.Sched.Locks.{Owned, has_lk}

-- whether a process there may be in the state SLEEPING
abbrev rests : Stage → Bool
rests outside = false
rests inside = false
rests falling = false
rests dozing = false
rests parked = true
rests suspended = true
rests resumed = false
rests returning = false
rests (waking i) = false
rests (waking_at i) = false

abbrev pub is_falling : Stage → Bool
is_falling outside = false
is_falling inside = false
is_falling falling = true
is_falling dozing = false
is_falling parked = false
is_falling suspended = false
is_falling resumed = false
is_falling returning = false
is_falling (waking i) = false
is_falling (waking_at i) = false

-- whether a process there sleeps, or is about to, with `lk` released
abbrev pub drowsy : Stage → Proc → Bool
drowsy outside p = false
drowsy inside p = false
drowsy falling p = false
drowsy dozing p = true
drowsy parked p = is_sleeping p.state
drowsy suspended p = is_sleeping p.state
drowsy resumed p = false
drowsy returning p = false
drowsy (waking i) p = false
drowsy (waking_at i) p = false

-- whether a `wakeup` there is still to visit the entry `p`
abbrev pub pending : ℕ → Stage → Bool
pending p outside = false
pending p inside = false
pending p falling = false
pending p dozing = false
pending p parked = false
pending p suspended = false
pending p resumed = false
pending p returning = false
pending p (waking i) = leb i p
pending p (waking_at i) = leb i p

falling_has : (pc : Stage) → is_falling pc ≡ true → has_lk pc ≡ true
falling_has pc h = ground (arith, h)

module _ (chan : ℕ) where
  pub record Watched (s : System) : Type 0 where
    pub owned : Owned s
    pub states : (p : ℕ) → is_sleeping (s.procs p).state ≡ true → rests (s.pc p) ≡ true
    pub chans : (p : ℕ) → is_sleeping (s.procs p).state ≡ true → (s.procs p).chan ≡ chan
    pub calm : (p : ℕ) → is_falling (s.pc p) ≡ true → s.cond ≡ false
    pub entries :
        (p : ℕ) → is_falling (s.pc p) ≡ true ⊎ drowsy (s.pc p) (s.procs p) ≡ true → p < nproc
    pub watched :
        s.cond ≡ true
        → (p : ℕ) → drowsy (s.pc p) (s.procs p) ≡ true
        → (w : ℕ) × (w ≢ p) × (pending p (s.pc w) ≡ true)

  pub states-Step :
      (s s' : System)
      → Watched s
      → Step chan s s'
      → (p : ℕ) → is_sleeping (s'.procs p).state ≡ true
      → rests (s'.pc p) ≡ true
  unfolding wake
  states-Step s s' v (enter me e f) p h = ground (arith, h, v.states p, e, f, v.states me)
  states-Step s s' v (leave me e) p h = ground (arith, h, v.states p, e, v.states me)
  states-Step s s' v (consume me e f) p h = ground (arith, h, v.states p, e, f, v.states me)
  states-Step s s' v (lock_self me e f g k) p h =
      ground (arith, h, v.states p, e, f, g, k, v.states me)
  states-Step s s' v (unlock me e) p h = ground (arith, h, v.states p, e, v.states me)
  states-Step s s' v (set_sleeping me e) p h = ground (arith, h, v.states p, e, v.states me)
  states-Step s s' v (switch_out me e) p h = ground (arith, h, v.states p, e, v.states me)
  states-Step s s' v (schedule me e f g) p h = ground (arith, h, v.states p, e, f, g, v.states me)
  states-Step s s' v (unlock_self me e) p h = ground (arith, h, v.states p, e, v.states me)
  states-Step s s' v (relock me e f) p h = ground (arith, h, v.states p, e, f, v.states me)
  states-Step s s' v (set_cond me e) p h = ground (arith, h, v.states p, e, v.states me)
  states-Step s s' v (skip_self me e) p h = ground (arith, h, v.states p, e, v.states me)
  states-Step s s' v (lock_entry me i e f g k) p h =
      ground (arith, h, v.states p, e, f, g, k, v.states me)
  states-Step s s' v (wake_entry me i e) p h = ground (arith, h, v.states p, e, v.states me)
  states-Step s s' v (stir p' f) p h = ground (arith, h, v.states p, f)
  states-Step s s' v (woken_all me e) p h = ground (arith, h, v.states p, e, v.states me)

  pub chans-Step :
      (s s' : System)
      → Watched s
      → Step chan s s'
      → (p : ℕ) → is_sleeping (s'.procs p).state ≡ true
      → (s'.procs p).chan ≡ chan
  unfolding wake
  chans-Step s s' v (enter me e f) p h = ground (arith, h, v.chans p, e, f, v.chans me, v.states me)
  chans-Step s s' v (leave me e) p h = ground (arith, h, v.chans p, e, v.chans me, v.states me)
  chans-Step s s' v (consume me e f) p h =
      ground (arith, h, v.chans p, e, f, v.chans me, v.states me)
  chans-Step s s' v (lock_self me e f g k) p h =
      ground (arith, h, v.chans p, e, f, g, k, v.chans me, v.states me)
  chans-Step s s' v (unlock me e) p h = ground (arith, h, v.chans p, e, v.chans me, v.states me)
  chans-Step s s' v (set_sleeping me e) p h =
      ground (arith, h, v.chans p, e, v.chans me, v.states me)
  chans-Step s s' v (switch_out me e) p h = ground (arith, h, v.chans p, e, v.chans me, v.states me)
  chans-Step s s' v (schedule me e f g) p h =
      ground (arith, h, v.chans p, e, f, g, v.chans me, v.states me)
  chans-Step s s' v (unlock_self me e) p h =
      ground (arith, h, v.chans p, e, v.chans me, v.states me)
  chans-Step s s' v (relock me e f) p h =
      ground (arith, h, v.chans p, e, f, v.chans me, v.states me)
  chans-Step s s' v (set_cond me e) p h = ground (arith, h, v.chans p, e, v.chans me, v.states me)
  chans-Step s s' v (skip_self me e) p h = ground (arith, h, v.chans p, e, v.chans me, v.states me)
  chans-Step s s' v (lock_entry me i e f g k) p h =
      ground (arith, h, v.chans p, e, f, g, k, v.chans me, v.states me)
  chans-Step s s' v (wake_entry me i e) p h =
      ground (arith, h, v.chans p, e, v.chans me, v.states me)
  chans-Step s s' v (stir p' f) p h = ground (arith, h, v.chans p, f)
  chans-Step s s' v (woken_all me e) p h = ground (arith, h, v.chans p, e, v.chans me, v.states me)

  pub calm-Step :
      (s s' : System)
      → Watched s
      → Step chan s s'
      → (p : ℕ) → is_falling (s'.pc p) ≡ true
      → s'.cond ≡ false
  calm-Step s s' v (enter me e f) p h = ground (arith, h, v.calm p, e, f)
  calm-Step s s' v (leave me e) p h = ground (arith, h, v.calm p, e)
  calm-Step s s' v (consume me e f) p h = ground (arith, h, v.calm p, e, f)
  calm-Step s s' v (lock_self me e f g k) p h = ground (arith, h, v.calm p, e, f, g, k)
  calm-Step s s' v (unlock me e) p h = ground (arith, h, v.calm p, e)
  calm-Step s s' v (set_sleeping me e) p h = ground (arith, h, v.calm p, e)
  calm-Step s s' v (switch_out me e) p h = ground (arith, h, v.calm p, e)
  calm-Step s s' v (schedule me e f g) p h = ground (arith, h, v.calm p, e, f, g)
  calm-Step s s' v (unlock_self me e) p h = ground (arith, h, v.calm p, e)
  calm-Step s s' v (relock me e f) p h = ground (arith, h, v.calm p, e, f)
  calm-Step s s' v (set_cond me e) p h =
      ground (arith, h, v.calm p, e, v.owned.lk p, v.owned.lk me, falling_has (s.pc p))
  calm-Step s s' v (skip_self me e) p h = ground (arith, h, v.calm p, e)
  calm-Step s s' v (lock_entry me i e f g k) p h = ground (arith, h, v.calm p, e, f, g, k)
  calm-Step s s' v (wake_entry me i e) p h = ground (arith, h, v.calm p, e)
  calm-Step s s' v (stir p' f) p h = ground (arith, h, v.calm p, f)
  calm-Step s s' v (woken_all me e) p h = ground (arith, h, v.calm p, e)

  pub entries-Step :
      (s s' : System)
      → Watched s
      → Step chan s s'
      → (p : ℕ) → is_falling (s'.pc p) ≡ true ⊎ drowsy (s'.pc p) (s'.procs p) ≡ true
      → p < nproc
  unfolding wake
  entries-Step s s' v (enter me e f) p h = ground (arith, h, v.entries p, e, f, v.entries me)
  entries-Step s s' v (leave me e) p h = ground (arith, h, v.entries p, e, v.entries me)
  entries-Step s s' v (consume me e f) p h = ground (arith, h, v.entries p, e, f, v.entries me)
  entries-Step s s' v (lock_self me e f g k) p h =
      ground (arith, h, v.entries p, e, f, g, k, v.entries me)
  entries-Step s s' v (unlock me e) p h = ground (arith, h, v.entries p, e, v.entries me)
  entries-Step s s' v (set_sleeping me e) p h = ground (arith, h, v.entries p, e, v.entries me)
  entries-Step s s' v (switch_out me e) p h = ground (arith, h, v.entries p, e, v.entries me)
  entries-Step s s' v (schedule me e f g) p h =
      ground (arith, h, v.entries p, e, f, g, v.entries me)
  entries-Step s s' v (unlock_self me e) p h = ground (arith, h, v.entries p, e, v.entries me)
  entries-Step s s' v (relock me e f) p h = ground (arith, h, v.entries p, e, f, v.entries me)
  entries-Step s s' v (set_cond me e) p h = ground (arith, h, v.entries p, e, v.entries me)
  entries-Step s s' v (skip_self me e) p h = ground (arith, h, v.entries p, e, v.entries me)
  entries-Step s s' v (lock_entry me i e f g k) p h =
      ground (arith, h, v.entries p, e, f, g, k, v.entries me)
  entries-Step s s' v (wake_entry me i e) p h = ground (arith, h, v.entries p, e, v.entries me)
  entries-Step s s' v (stir p' f) p h = ground (arith, h, v.entries p, f)
  entries-Step s s' v (woken_all me e) p h = ground (arith, h, v.entries p, e, v.entries me)
