-- ===== src/Sleeplock/Exclusion.antt =====
-- The sleep lock of kernel/sleeplock.c in every interleaving of its users.
use paddle_os.Prelude.{ℕ, ◌≡◌, refl, true, false, none, some, arith}
use paddle_os.Sleeplock.{
  stir, SleepLock, initsleeplock, acquiresleep_try, releasesleep, holdingsleep, System, Step, take,
  must_wait, release, Reaches, start, step,
}

record IsSystem (s : System) : Type 0 where
  exact : (p : ℕ) → holdingsleep p s.lock ≡ s.holds p
  waits_for : (p : ℕ) → s.asleep p ≡ true → s.lock.locked ≡ true

taken :
    (me : ℕ) (l lk : SleepLock)
    → acquiresleep_try me l ≡ some lk
    → (l.locked ≡ false) × (lk.locked ≡ true) × (lk.pid ≡ me)
unfolding acquiresleep_try
taken me l lk e = ground (arith, e)

busy : (me : ℕ) (l : SleepLock) → acquiresleep_try me l ≡ none → l.locked ≡ true
unfolding acquiresleep_try
busy me l e = ground (arith, e)

IsSystem-Step : {s s' : System} → IsSystem s → Step s s' → IsSystem s'
unfolding holdingsleep releasesleep
IsSystem-Step {s = s} h (take me lk a b e) =
    let (free, l, p) = taken me s.lock lk e in
    record { exact = λ q. ground (arith, free, l, p, h.exact q); waits_for = λ q w. l }
IsSystem-Step {s = s} h (must_wait me a b e) = record {
  exact = h.exact;
  waits_for = λ q w. busy me s.lock e;
}
IsSystem-Step {s = s} h (stir me) = record {
  exact = h.exact;
  waits_for = λ q w. h.waits_for q (ground (arith, w));
}
IsSystem-Step {s = s} h (release me b) = record {
  exact = λ q. ground (arith, b, h.exact q, h.exact me);
  waits_for = λ q w. absurd (cc);
}

IsSystem-Reaches : {s : System} → Reaches s → IsSystem s
unfolding initsleeplock holdingsleep
IsSystem-Reaches start = record { exact = λ p. refl; waits_for = λ p e. cc }
IsSystem-Reaches (step r t) = IsSystem-Step (IsSystem-Reaches r) t

-- In every reachable state at most one process holds the lock, `holdingsleep` answers exactly
-- whether the process does, and a process is asleep on the lock only while another holds it.
pub sleeplock_lem :
    (s : System)
    → Reaches s
    → ((p q : ℕ) → s.holds p ≡ true → s.holds q ≡ true → p ≡ q)
      × ((p : ℕ) → holdingsleep p s.lock ≡ s.holds p)
      × ((p : ℕ) → s.asleep p ≡ true → s.holds s.lock.pid ≡ true)
unfolding holdingsleep
sleeplock_lem s r =
    let h = IsSystem-Reaches r in
    (
      λ p q a b. ground (arith, a, b, h.exact p, h.exact q),
      h.exact,
      λ p w. ground (arith, h.waits_for p w, h.exact s.lock.pid),
    )
