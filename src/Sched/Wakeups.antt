-- ===== src/Sched/Wakeups.antt =====
-- No wakeup of kernel/proc.c is lost: a process that sleeps while the condition holds is still to be
-- visited by a `wakeup` that runs.
use paddle_os.Prelude.{◌==◌, Bool-cases, ℕ, ◌≡◌, refl, ap, ◌≢◌, inl, inr, true, some, arith}
use paddle_os.Proc.{Proc, is_sleeping, wake}
use paddle_os.Sched.{
  Stage, waking_at, System, Step, enter, leave, consume, lock_self, unlock, set_sleeping,
  switch_out, schedule, unlock_self, relock, set_cond, skip_self, lock_entry, wake_entry, stir,
  woken_all, Reaches, start, step,
}
use paddle_os.Sched.Locks.{has_lk, has_own, Owned-Step}
use paddle_os.Sched.Rest.{
  is_falling, drowsy, pending, Watched, states-Step, chans-Step, calm-Step, entries-Step,
}

pending_has : (p : ℕ) (pc : Stage) → pending p pc ≡ true → has_lk pc ≡ true
pending_has p pc h = ground (arith, h)

module _ (chan : ℕ) where
  drowsy-wake :
      (pc : Stage) (p : Proc)
      → (is_sleeping p.state ≡ true → p.chan ≡ chan)
      → drowsy pc (wake chan p) ≡ true
      → has_own pc ≡ true
  unfolding wake
  drowsy-wake pc p f h = ground (arith, f, h)

  -- The process that `wakeup` visits sleeps no more.
  woken_not_drowsy :
      (s : System)
      → Watched chan s
      → (me i p : ℕ) → s.pc me ≡ waking_at i
      → (i == p) ≡ true
      → drowsy (s.pc p) (wake chan (s.procs p)) ≡ true
      → ⊥
  woken_not_drowsy s v me i p e q h = ground (
    arith,
    e,
    q,
    drowsy-wake (s.pc p) (s.procs p) (v.chans p) h,
    v.owned.own p,
    v.owned.entry me p,
    v.owned.other me p,
  )

  sleeper-Step :
      (s s' : System)
      → Watched chan s
      → Step chan s s'
      → (p : ℕ) → s'.cond ≡ true
      → drowsy (s'.pc p) (s'.procs p) ≡ true
      → (w : ℕ) × (w ≢ p) × (pending p (s'.pc w) ≡ true)
  unfolding wake
  sleeper-Step s s' v (enter me e f) p c h =
      let x = v.watched c p (ground (arith, h, c, e, f)) in (x.0, x.1, ground (arith, h, x.2, e, f))
  sleeper-Step s s' v (leave me e) p c h =
      let x = v.watched c p (ground (arith, h, c, e)) in (x.0, x.1, ground (arith, h, x.2, e))
  sleeper-Step s s' v (consume me e f) p c h = absurd (ground (arith, c))
  sleeper-Step s s' v (lock_self me e f g k) p c h =
      let x = v.watched c p (ground (arith, h, c, e, f, g, k)) in
      (x.0, x.1, ground (arith, h, x.2, e, f, g, k))
  sleeper-Step s s' v (unlock me e) p c h = elim (Bool-cases (me == p)) [
    | inl q ↦ absurd (ground (arith, c, v.calm me (ap is_falling e)))
    | inr q ↦
        let x = v.watched c p (ground (arith, h, e, q)) in (x.0, x.1, ground (arith, h, x.2, e, q))
  ]
  sleeper-Step s s' v (set_sleeping me e) p c h =
      let x = v.watched c p (ground (arith, h, c, e)) in (x.0, x.1, ground (arith, h, x.2, e))
  sleeper-Step s s' v (switch_out me e) p c h =
      let x = v.watched c p (ground (arith, h, c, e)) in (x.0, x.1, ground (arith, h, x.2, e))
  sleeper-Step s s' v (schedule me e f g) p c h =
      let x = v.watched c p (ground (arith, h, c, e, f, g)) in
      (x.0, x.1, ground (arith, h, x.2, e, f, g))
  sleeper-Step s s' v (unlock_self me e) p c h =
      let x = v.watched c p (ground (arith, h, c, e)) in (x.0, x.1, ground (arith, h, x.2, e))
  sleeper-Step s s' v (relock me e f) p c h =
      let x = v.watched c p (ground (arith, h, c, e, f)) in (x.0, x.1, ground (arith, h, x.2, e, f))
  sleeper-Step s s' v (set_cond me e) p c h = (me, ground (arith, h, e), ground arith)
  sleeper-Step s s' v (skip_self me e) p c h =
      let x = v.watched c p (ground (arith, h, e)) in (x.0, x.1, ground (arith, h, x.1, x.2, e))
  sleeper-Step s s' v (lock_entry me i e f g k) p c h =
      let x = v.watched c p (ground (arith, h, c, e, f, g, k)) in
      (x.0, x.1, ground (arith, h, x.2, e, f, g, k))
  sleeper-Step s s' v (wake_entry me i e) p c h = elim (Bool-cases (i == p)) [
    | inl q ↦ absurd (woken_not_drowsy s v me i p e q (ground (arith, h, e, q)))
    | inr q ↦
        let x = v.watched c p (ground (arith, h, e, q)) in (x.0, x.1, ground (arith, h, x.2, e, q))
  ]
  sleeper-Step s s' v (stir p' f) p c h =
      let x = v.watched c p (ground (arith, h, c, f)) in (x.0, x.1, ground (arith, h, x.2, f))
  sleeper-Step s s' v (woken_all me e) p c h =
      let x = v.watched c p (ground (arith, h, e)) in
      (x.0, x.1, ground (arith, h, x.2, e, v.entries p (inr (ground (arith, h, e)))))

  Watched-Step : (s s' : System) → Watched chan s → Step chan s s' → Watched chan s'
  Watched-Step s s' v st = record {
    owned = Owned-Step chan s s' v.owned st;
    states = states-Step chan s s' v st;
    chans = chans-Step chan s s' v st;
    calm = calm-Step chan s s' v st;
    entries = entries-Step chan s s' v st;
    watched = λ c p. sleeper-Step s s' v st p c;
  }

  Watched-Reaches : (procs : ℕ → Proc) (s : System) → Reaches chan procs s → Watched chan s
  Watched-Reaches procs s (start r) = record {
    owned = record {
      lk = λ p h. ground (arith, h);
      own = λ p h. ground (arith, h);
      entry = λ q p h. ground (arith, h);
      other = λ q p h. ground (arith, h);
    };
    states = λ p h. ground (arith, h, r p);
    chans = λ p h. ground (arith, h, r p);
    calm = λ p h. refl;
    entries = λ p h. ground (arith, h);
    watched = λ c p h. ground (arith, c);
  }
  Watched-Reaches procs s' (step {s} r st) = Watched-Step s s' (Watched-Reaches procs s r) st

-- In every reachable state where the condition holds, a process that sleeps on the channel, or has
-- released `lk` to do so, is still to be visited by the `wakeup` of another process, which holds
-- `lk`. So no process sleeps once `lk` is free: no wakeup is lost.
pub no_lost_wakeup :
    (chan : ℕ) (procs : ℕ → Proc) (s : System)
    → Reaches chan procs s
    → s.cond ≡ true
    → (p : ℕ) → drowsy (s.pc p) (s.procs p) ≡ true
    → (w : ℕ) × (w ≢ p) × (pending p (s.pc w) ≡ true) × (s.lk ≡ some w)
no_lost_wakeup chan procs s r c p h =
    let v = Watched-Reaches chan procs s r in
    let x = v.watched c p h in (x.0, x.1, x.2, v.owned.lk x.0 (pending_has p (s.pc x.0) x.2))
