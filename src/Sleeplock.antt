-- ===== src/Sleeplock.antt =====
-- kernel/sleeplock.c: a lock whose waiters sleep. `lk->lk` makes each function one step up to where
-- it sleeps, and `sleep` gives it up only when the process is on the lock's channel, so that going
-- to sleep is one step with the test of `locked`. A process is its pid.
pub mod Exclusion
mod Tests
use paddle_os.Prelude.{
  ◌==◌, if◌then◌else◌, put, ℕ, ◌≡◌, Bool, true, false, ◌&&◌, Option, none, some,
}

pub record SleepLock : Type 0 where
  pub locked : Bool
  pub pid : ℕ

unfoldable pub initsleeplock : SleepLock
initsleeplock = record { locked = false; pid = 0 }

-- One round of the loop of `acquiresleep`: `none` if it sleeps, to try again when it is woken.
unfoldable pub acquiresleep_try : (me : ℕ) → SleepLock → Option SleepLock
acquiresleep_try me lk = if lk.locked then none else some (record { locked = true; pid = me })

unfoldable pub releasesleep : SleepLock → SleepLock
releasesleep lk = record { locked = false; pid = 0 }

unfoldable pub holdingsleep : (me : ℕ) → SleepLock → Bool
holdingsleep me lk = lk.locked && lk.pid == me

-- The lock, the processes that hold it, and those asleep on its channel.
pub record System : Type 0 where
  pub lock : SleepLock
  pub holds : ℕ → Bool
  pub asleep : ℕ → Bool

-- A process that is awake and does not hold the lock may try to take it; one that holds it may
-- release it, which wakes all that sleep on it. `stir`: `kill` may wake a sleeper at any time.
pub data Step (s : System) : System → Type 0 where
  take :
      (me : ℕ) (lk : SleepLock)
      → s.asleep me ≡ false
      → s.holds me ≡ false
      → acquiresleep_try me s.lock ≡ some lk
      → Step s (record { lock = lk; holds = put s.holds me true; asleep = s.asleep })
  must_wait :
      (me : ℕ)
      → s.asleep me ≡ false
      → s.holds me ≡ false
      → acquiresleep_try me s.lock ≡ none
      → Step s (record s { asleep = put s.asleep me true })
  stir : (me : ℕ) → Step s (record s { asleep = put s.asleep me false })
  release :
      (me : ℕ)
      → s.holds me ≡ true
      → Step s
          (record { lock = releasesleep s.lock; holds = put s.holds me false; asleep = λ p. false })

pub data Reaches : System → Type 0 where
  start : Reaches (record { lock = initsleeplock; holds = λ p. false; asleep = λ p. false })
  step : {s s' : System} → Reaches s → Step s s' → Reaches s'
