-- ===== src/Sleeplock/Tests.antt =====
-- The sleep lock of kernel/sleeplock.c with a holder and a waiter.
use paddle_os.Prelude.{put, ℕ, ◌≡◌, refl, true, false}
use paddle_os.Sleeplock.{
  initsleeplock, acquiresleep_try, holdingsleep, System, Reaches, start, step, take, must_wait,
}
use paddle_os.Sleeplock.Exclusion.{sleeplock_lem}

abbrev contended : System
contended = record {
  lock = record { locked = true; pid = 4 };
  holds = put (λ p. false) 4 true;
  asleep = put (λ p. false) 9 true;
}

contended-Reaches : Reaches contended
unfolding initsleeplock acquiresleep_try
contended-Reaches = step (step start (take 4 _ refl refl refl)) (must_wait 9 refl refl refl)

sleeplock_lem_example :
    ((p q : ℕ) → contended.holds p ≡ true → contended.holds q ≡ true → p ≡ q)
    × ((p : ℕ) → holdingsleep p contended.lock ≡ contended.holds p)
    × ((p : ℕ) → contended.asleep p ≡ true → contended.holds contended.lock.pid ≡ true)
sleeplock_lem_example = sleeplock_lem contended contended-Reaches
