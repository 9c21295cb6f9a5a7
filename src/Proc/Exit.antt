-- ===== src/Proc/Exit.antt =====
-- `reparent` and `exit` of kernel/proc.c against `wait`.
use paddle_os.Prelude.{
  ltb, leb, ◌==◌, if◌then◌else◌, Bool-cases, put, ℕ, zero, suc, ◌+◌, ◌≤◌, ◌<◌, ◌≡◌, sym, transport,
  ap, ◌∙◌, ◌≢◌, inl, inr, Bool, true, false, ◌&&◌, some, arith,
}
use paddle_os.Proc.{
  Proc, nproc, zombie, is_sleeping, is_child, wake, wakeup, reparent_from, reparent, exit,
  parent_chan, Waited, reaped, failed, freeproc, wait,
}
use paddle_os.Proc.Wait.{
  ended_child, WaitPass, reaps, no_copy, no_child, was_killed, sleeps, wait_lem,
}
use paddle_os.Proc.Wakeup.{wakeup-wake}

wake-parent : (chan : ℕ) (p : Proc) → (wake chan p).parent ≡ p.parent
unfolding wake
wake-parent chan p = ground arith

wakeup-parent : (me chan : ℕ) (ps : ℕ → Proc) (j : ℕ) → (wakeup me chan ps j).parent ≡ (ps j).parent
wakeup-parent me chan ps j = ground (arith, wakeup-wake me chan ps j, wake-parent chan (ps j))

reparent_from-parent :
    (chan_of : ℕ → ℕ) (left i me init : ℕ) (ps : ℕ → Proc) (j : ℕ)
    → (reparent_from chan_of left i me init ps j).parent ≡ (
        if (leb i j && ltb j (i + left)) && is_child me (ps j).parent
        then some init
        else (ps j).parent)
unfolding reparent_from
reparent_from-parent chan_of zero i me init ps j = ground arith
reparent_from-parent chan_of (suc left) i me init ps j =
    elim (Bool-cases (is_child me (ps i).parent)) [
      | inl e ↦
          let qs = put ps i (record (ps i) { parent = some init }) in
          ground (
            arith,
            e,
            reparent_from-parent chan_of left (suc i) me init (wakeup me (chan_of init) qs) j,
            wakeup-parent me (chan_of init) qs j,
          )
      | inr e ↦ ground (arith, e, reparent_from-parent chan_of left (suc i) me init ps j)
    ]

-- `reparent` hands the children of a process over to `init`, and leaves every other parent alone.
pub reparent_lem :
    (chan_of : ℕ → ℕ) (me init : ℕ) (ps : ℕ → Proc) (j : ℕ)
    → (reparent chan_of me init ps j).parent
      ≡ (if ltb j nproc && is_child me (ps j).parent then some init else (ps j).parent)
unfolding reparent
reparent_lem chan_of me init ps j =
    ground (arith, reparent_from-parent chan_of nproc 0 me init ps j)

wake-awake :
    (chan : ℕ) (p : Proc) → (is_sleeping (wake chan p).state && (wake chan p).chan == chan) ≡ false
unfolding wake
wake-awake chan p = ground arith

wakeup-awake :
    (me chan : ℕ) (ps : ℕ → Proc) (j : ℕ)
    → j < nproc
    → j ≢ me
    → (is_sleeping (wakeup me chan ps j).state && (wakeup me chan ps j).chan == chan) ≡ false
wakeup-awake me chan ps j b n =
    rw (wakeup-wake me chan ps j) (ground (arith, b, n, wake-awake chan (ps j)))

-- What `exit` of the process `me` left: the process is a zombie with its status, still its parent's
-- child; the parent `p` does not sleep in `wait`; and its children, no other process, are init's
-- now.
pub record Exited (chan_of : ℕ → ℕ) (init me p status : ℕ) (before ps : ℕ → Proc) : Type 0 where
  pub zombie_now : (ps me).state ≡ zombie
  pub status_kept : (ps me).xstate ≡ status
  pub same_parent : (ps me).parent ≡ some p
  pub parent_awake : (is_sleeping (ps p).state && (ps p).chan == chan_of p) ≡ false
  pub children :
      (j : ℕ)
      → j < nproc
      → (ps j).parent ≡ (if is_child me (before j).parent then some init else (before j).parent)

module _ (chan_of : ℕ → ℕ) (init me p status : ℕ) (ps : ℕ → Proc) where
  abbrev woken : ℕ → Proc
  woken =
      wakeup me (parent_chan chan_of (reparent chan_of me init ps me).parent)
        (reparent chan_of me init ps)

  abbrev ended : ℕ → Proc
  ended = put woken me (record (woken me) { xstate = status; state = zombie })

  exit-ended : me ≢ init → exit chan_of init me status ps ≡ some ended
  unfolding exit
  exit-ended n = ground (arith, n)

  woken-parent :
      (j : ℕ)
      → (woken j).parent
        ≡ (if ltb j nproc && is_child me (ps j).parent then some init else (ps j).parent)
  woken-parent j =
      wakeup-parent me _ (reparent chan_of me init ps) j ∙ reparent_lem chan_of me init ps j

  ended-parent : (j : ℕ) → (ended j).parent ≡ (woken j).parent
  ended-parent j = ground arith

  still_child :
      p ≢ me
      → (ps me).parent ≡ some p
      → (if ltb me nproc && is_child me (ps me).parent then some init else (ps me).parent) ≡ some p
  still_child m e = rw e (ground (arith, m))

  chan_eq :
      p ≢ me
      → (ps me).parent ≡ some p
      → parent_chan chan_of (reparent chan_of me init ps me).parent ≡ chan_of p
  chan_eq m e = ap (parent_chan chan_of) (reparent_lem chan_of me init ps me ∙ still_child m e)

  ended-other : p ≢ me → ended p ≡ woken p
  ended-other m = ground (arith, m)

  Exited-ended :
      me ≢ init
      → p ≢ me
      → p < nproc
      → (ps me).parent ≡ some p
      → Exited chan_of init me p status ps ended
  Exited-ended n m b e = record {
    zombie_now = ground arith;
    status_kept = ground arith;
    same_parent = ended-parent me ∙ woken-parent me ∙ still_child m e;
    parent_awake = rw (ended-other m) (
        transport (λ i. (is_sleeping (woken p).state && (woken p).chan == chan_eq m e i) ≡ false)
          (wakeup-awake me _ (reparent chan_of me init ps) p b m));
    children = λ j c. ended-parent j ∙ woken-parent j ∙ ground (arith, c);
  }

true-false : true ≢ false
true-false e = cc

zombie_child : (p : ℕ) (q : Proc) → q.parent ≡ some p → q.state ≡ zombie → ended_child p q ≡ true
zombie_child p q e z = rw e (rw z (ground arith))

-- A round of `wait` of `p` took the first child that has ended, up to `me`: its pid is the result
-- and its entry free again, or its status could not be copied.
pub data Finds (copied : ℕ → Bool) (me p : ℕ) (ps : ℕ → Proc) : Waited × (ℕ → Proc) → Type 0 where
  found :
      (k : ℕ)
      → k ≤ me
      → ended_child p (ps k) ≡ true
      → ((j : ℕ) → j < k → ended_child p (ps j) ≡ false)
      → copied k ≡ true
      → Finds copied me p ps (reaped (ps k).pid, put ps k (freeproc (ps k)))
  not_copied :
      (k : ℕ) → ended_child p (ps k) ≡ true → copied k ≡ false → Finds copied me p ps (failed, ps)

not_ended :
    (p me : ℕ) (ps : ℕ → Proc)
    → ended_child p (ps me) ≡ true
    → ((j : ℕ) → 0 ≤ j → j < 0 + nproc → ended_child p (ps j) ≡ false)
    → me < nproc
    → true ≡ false
not_ended p me ps z f b = sym z ∙ f me (omega arith) (omega (arith, b))

up_to :
    (p me k : ℕ) (ps : ℕ → Proc)
    → ended_child p (ps me) ≡ true
    → ((j : ℕ) → 0 ≤ j → j < k → ended_child p (ps j) ≡ false)
    → k ≤ me
up_to p me k ps z f = elim (Bool-cases (leb k me)) [
  | inl e ↦ ground (arith, e)
  | inr e ↦ absurd (true-false (sym z ∙ f me (omega arith) (ground (arith, e))))
]

Finds-pass :
    (copied : ℕ → Bool) (me p : ℕ) (ps : ℕ → Proc) (r : Waited × (ℕ → Proc))
    → me < nproc
    → ended_child p (ps me) ≡ true
    → WaitPass copied nproc 0 p false ps r
    → Finds copied me p ps r
Finds-pass copied me p ps r b z (reaps k x y e f c) =
    found k (up_to p me k ps z f) e (λ j l. f j (omega arith) l) c
Finds-pass copied me p ps r b z (no_copy k x y e c) = not_copied k e c
Finds-pass copied me p ps r b z (no_child e f) =
    absurd (ground (arith, z, f me (omega arith) (omega (arith, b))))
Finds-pass copied me p ps r b z (was_killed e f) = absurd (true-false (not_ended p me ps z f b))
Finds-pass copied me p ps r b z (sleeps e w f) = absurd (true-false (not_ended p me ps z f b))

-- `exit` of a process other than init makes it a zombie with its status, still the child of its
-- parent, and hands its children over to init. The parent is not asleep in `wait`, and its next
-- round of `wait` returns: it frees the first child that has ended, this one at the latest, and
-- answers with its pid, or fails as the status of a child that has ended could not be copied.
pub exit-wait :
    (chan_of : ℕ → ℕ) (copied : ℕ → Bool) (init me p status : ℕ) (ps : ℕ → Proc)
    → me ≢ init
    → p ≢ me
    → me < nproc
    → p < nproc
    → (ps me).parent ≡ some p
    → (ps' : ℕ → Proc) × (exit chan_of init me status ps ≡ some ps')
      × Exited chan_of init me p status ps ps'
      × Finds copied me p ps' (wait copied p ps')
exit-wait chan_of copied init me p status ps n m a b e =
    let x = Exited-ended chan_of init me p status ps n m b e in
    (
      ended chan_of init me p status ps,
      exit-ended chan_of init me p status ps n,
      x,
      Finds-pass copied me p (ended chan_of init me p status ps) _ a
          (zombie_child p (ended chan_of init me p status ps me) x.same_parent x.zombie_now)
          (wait_lem copied p (ended chan_of init me p status ps)),
    )
