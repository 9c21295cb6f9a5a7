-- ===== src/Sched/Locks.antt =====
-- Who holds the locks while processes sleep and wake each other, in kernel/proc.c.
use paddle_os.Prelude.{◌==◌, ℕ, ◌≡◌, ◌≢◌, Bool, true, false, some, arith}
use paddle_os.Sched.{
  Stage, inside, falling, dozing, parked, suspended, resumed, waking, waking_at, outside, returning,
  System, Step, enter, leave, consume, lock_self, unlock, set_sleeping, switch_out, schedule,
  unlock_self, relock, set_cond, skip_self, lock_entry, wake_entry, stir, woken_all,
}

-- whether a process there has `lk`
abbrev pub has_lk : Stage → Bool
has_lk outside = false
has_lk inside = true
has_lk falling = true
has_lk dozing = false
has_lk parked = false
has_lk suspended = false
has_lk resumed = false
has_lk returning = false
has_lk (waking i) = true
has_lk (waking_at i) = true

-- whether a process there has its own `p->lock`
abbrev pub has_own : Stage → Bool
has_own outside = false
has_own inside = false
has_own falling = true
has_own dozing = true
has_own parked = true
has_own suspended = false
has_own resumed = true
has_own returning = false
has_own (waking i) = false
has_own (waking_at i) = false

-- whether it has the lock of the entry `p` in `wakeup`
abbrev pub has_entry : ℕ → Stage → Bool
has_entry p outside = false
has_entry p inside = false
has_entry p falling = false
has_entry p dozing = false
has_entry p parked = false
has_entry p suspended = false
has_entry p resumed = false
has_entry p returning = false
has_entry p (waking i) = false
has_entry p (waking_at i) = i == p

pub record Owned (s : System) : Type 0 where
  pub lk : (p : ℕ) → has_lk (s.pc p) ≡ true → s.lk ≡ some p
  pub own : (p : ℕ) → has_own (s.pc p) ≡ true → s.plock p ≡ some p
  pub entry : (q p : ℕ) → has_entry p (s.pc q) ≡ true → s.plock p ≡ some q
  pub other : (q p : ℕ) → has_entry p (s.pc q) ≡ true → q ≢ p

module _ (chan : ℕ) where
  lk-Step :
      (s s' : System)
      → Owned s
      → Step chan s s'
      → (p : ℕ) → has_lk (s'.pc p) ≡ true
      → s'.lk ≡ some p
  lk-Step s s' o (enter me e f) p h = ground (arith, h, o.lk p, o.lk me, e, f)
  lk-Step s s' o (leave me e) p h = ground (arith, h, o.lk p, o.lk me, e)
  lk-Step s s' o (consume me e f) p h = ground (arith, h, o.lk p, o.lk me, e, f)
  lk-Step s s' o (lock_self me e f g k) p h = ground (arith, h, o.lk p, o.lk me, e, f, g, k)
  lk-Step s s' o (unlock me e) p h = ground (arith, h, o.lk p, o.lk me, e)
  lk-Step s s' o (set_sleeping me e) p h = ground (arith, h, o.lk p, o.lk me, e)
  lk-Step s s' o (switch_out me e) p h = ground (arith, h, o.lk p, o.lk me, e)
  lk-Step s s' o (schedule me e f g) p h = ground (arith, h, o.lk p, o.lk me, e, f, g)
  lk-Step s s' o (unlock_self me e) p h = ground (arith, h, o.lk p, o.lk me, e)
  lk-Step s s' o (relock me e f) p h = ground (arith, h, o.lk p, o.lk me, e, f)
  lk-Step s s' o (set_cond me e) p h = ground (arith, h, o.lk p, o.lk me, e)
  lk-Step s s' o (skip_self me e) p h = ground (arith, h, o.lk p, o.lk me, e)
  lk-Step s s' o (lock_entry me i e f g k) p h = ground (arith, h, o.lk p, o.lk me, e, f, g, k)
  lk-Step s s' o (wake_entry me i e) p h = ground (arith, h, o.lk p, o.lk me, e)
  lk-Step s s' o (stir p' f) p h = o.lk p h
  lk-Step s s' o (woken_all me e) p h = ground (arith, h, o.lk p, o.lk me, e)

  own-Step :
      (s s' : System)
      → Owned s
      → Step chan s s'
      → (p : ℕ) → has_own (s'.pc p) ≡ true
      → s'.plock p ≡ some p
  own-Step s s' o (enter me e f) p h = ground (arith, h, o.own p, o.own me, e, f)
  own-Step s s' o (leave me e) p h = ground (arith, h, o.own p, o.own me, e)
  own-Step s s' o (consume me e f) p h = ground (arith, h, o.own p, o.own me, e, f)
  own-Step s s' o (lock_self me e f g k) p h = ground (arith, h, o.own p, o.own me, e, f, g, k)
  own-Step s s' o (unlock me e) p h = ground (arith, h, o.own p, o.own me, e)
  own-Step s s' o (set_sleeping me e) p h = ground (arith, h, o.own p, o.own me, e)
  own-Step s s' o (switch_out me e) p h = ground (arith, h, o.own p, o.own me, e)
  own-Step s s' o (schedule me e f g) p h = ground (arith, h, o.own p, o.own me, e, f, g)
  own-Step s s' o (unlock_self me e) p h = ground (arith, h, o.own p, o.own me, e)
  own-Step s s' o (relock me e f) p h = ground (arith, h, o.own p, o.own me, e, f)
  own-Step s s' o (set_cond me e) p h = ground (arith, h, o.own p, o.own me, e)
  own-Step s s' o (skip_self me e) p h = ground (arith, h, o.own p, o.own me, e)
  own-Step s s' o (lock_entry me i e f g k) p h =
      ground (arith, h, o.own p, o.own me, e, f, g, k, o.entry me i, o.other me i)
  own-Step s s' o (wake_entry me i e) p h =
      ground (arith, h, o.own p, o.own me, e, o.entry me i, o.other me i)
  own-Step s s' o (stir p' f) p h = o.own p h
  own-Step s s' o (woken_all me e) p h = ground (arith, h, o.own p, o.own me, e)

  entry-Step :
      (s s' : System)
      → Owned s
      → Step chan s s'
      → (q p : ℕ) → has_entry p (s'.pc q) ≡ true
      → s'.plock p ≡ some q
  entry-Step s s' o (enter me e f) q p h =
      ground (arith, h, o.entry q p, o.entry me p, o.other q p, o.own me, e, f)
  entry-Step s s' o (leave me e) q p h =
      ground (arith, h, o.entry q p, o.entry me p, o.other q p, o.own me, e)
  entry-Step s s' o (consume me e f) q p h =
      ground (arith, h, o.entry q p, o.entry me p, o.other q p, o.own me, e, f)
  entry-Step s s' o (lock_self me e f g k) q p h =
      ground (arith, h, o.entry q p, o.entry me p, o.other q p, o.own me, e, f, g, k)
  entry-Step s s' o (unlock me e) q p h =
      ground (arith, h, o.entry q p, o.entry me p, o.other q p, o.own me, e)
  entry-Step s s' o (set_sleeping me e) q p h =
      ground (arith, h, o.entry q p, o.entry me p, o.other q p, o.own me, e)
  entry-Step s s' o (switch_out me e) q p h =
      ground (arith, h, o.entry q p, o.entry me p, o.other q p, o.own me, e)
  entry-Step s s' o (schedule me e f g) q p h =
      ground (arith, h, o.entry q p, o.entry me p, o.other q p, o.own me, e, f, g)
  entry-Step s s' o (unlock_self me e) q p h =
      ground (arith, h, o.entry q p, o.entry me p, o.other q p, o.own me, e)
  entry-Step s s' o (relock me e f) q p h =
      ground (arith, h, o.entry q p, o.entry me p, o.other q p, o.own me, e, f)
  entry-Step s s' o (set_cond me e) q p h =
      ground (arith, h, o.entry q p, o.entry me p, o.other q p, o.own me, e)
  entry-Step s s' o (skip_self me e) q p h =
      ground (arith, h, o.entry q p, o.entry me p, o.other q p, o.own me, e)
  entry-Step s s' o (lock_entry me i e f g k) q p h =
      ground (arith, h, o.entry q p, o.entry me p, o.other q p, o.own me, e, f, g, k, o.entry me i)
  entry-Step s s' o (wake_entry me i e) q p h =
      ground (arith, h, o.entry q p, o.entry me p, o.other q p, o.own me, e, o.entry me i)
  entry-Step s s' o (stir p' f) q p h = o.entry q p h
  entry-Step s s' o (woken_all me e) q p h =
      ground (arith, h, o.entry q p, o.entry me p, o.other q p, o.own me, e)

  other-Step :
      (s s' : System) → Owned s → Step chan s s' → (q p : ℕ) → has_entry p (s'.pc q) ≡ true → q ≢ p
  other-Step s s' o (enter me e f) q p h = ground (arith, h, o.other q p, e, f)
  other-Step s s' o (leave me e) q p h = ground (arith, h, o.other q p, e)
  other-Step s s' o (consume me e f) q p h = ground (arith, h, o.other q p, e, f)
  other-Step s s' o (lock_self me e f g k) q p h = ground (arith, h, o.other q p, e, f, g, k)
  other-Step s s' o (unlock me e) q p h = ground (arith, h, o.other q p, e)
  other-Step s s' o (set_sleeping me e) q p h = ground (arith, h, o.other q p, e)
  other-Step s s' o (switch_out me e) q p h = ground (arith, h, o.other q p, e)
  other-Step s s' o (schedule me e f g) q p h = ground (arith, h, o.other q p, e, f, g)
  other-Step s s' o (unlock_self me e) q p h = ground (arith, h, o.other q p, e)
  other-Step s s' o (relock me e f) q p h = ground (arith, h, o.other q p, e, f)
  other-Step s s' o (set_cond me e) q p h = ground (arith, h, o.other q p, e)
  other-Step s s' o (skip_self me e) q p h = ground (arith, h, o.other q p, e)
  other-Step s s' o (lock_entry me i e f g k) q p h = ground (arith, h, o.other q p, e, f, g, k)
  other-Step s s' o (wake_entry me i e) q p h = ground (arith, h, o.other q p, e)
  other-Step s s' o (stir p' f) q p h = o.other q p h
  other-Step s s' o (woken_all me e) q p h = ground (arith, h, o.other q p, e)

  pub Owned-Step : (s s' : System) → Owned s → Step chan s s' → Owned s'
  Owned-Step s s' o st = record {
    lk = lk-Step s s' o st;
    own = own-Step s s' o st;
    entry = entry-Step s s' o st;
    other = other-Step s s' o st;
  }
