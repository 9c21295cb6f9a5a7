-- ===== src/Spinlock/Exclusion/Moves.antt =====
-- Who owns a spin lock, and what one step of a CPU does to that.
use paddle_os.Prelude.{◌==◌, ℕ, ◌≡◌, ◌≢◌, ◌⊎◌, Bool, true, false, ◌||◌, some, arith}
use paddle_os.Spinlock.System.{
  Pc, taken, release_locked, release_cpu, clear, unlock, Thread, Locks, Move, call_acquire,
  not_locked, is_locked, not_mine, mine, try_busy, try_free, set_cpu, call_release, still_locked,
  found_unlocked, still_mine, found_other, clear_cpu, clear_word, return, pop_panic,
}

-- between its swap in `acquire` and the end of `release`, from where the code stands
abbrev pub pc_owns : Pc → ℕ → Bool
pc_owns (taken l) k = l == k
pc_owns (release_locked l) k = l == k
pc_owns (release_cpu l) k = l == k
pc_owns (clear l) k = l == k
pc_owns (unlock l) k = l == k
pc_owns _ k = false

-- while `lk->cpu` names this CPU
abbrev pub pc_named : Pc → ℕ → Bool
pc_named (release_locked l) k = l == k
pc_named (release_cpu l) k = l == k
pc_named (clear l) k = l == k
pc_named _ k = false

abbrev pub owns : Thread → ℕ → Bool
owns t k = t.held k || pc_owns t.pc k

abbrev pub named : Thread → ℕ → Bool
named t k = t.held k || pc_named t.pc k

pub named-owns :
    (b : Bool) (p : Pc) (k : ℕ) → (b || pc_named p k) ≡ true → (b || pc_owns p k) ≡ true
named-owns b (taken l) k h = ground arith
named-owns b (release_locked l) k h = h
named-owns b (release_cpu l) k h = h
named-owns b (clear l) k h = h
named-owns b (unlock l) k h = ground arith
named-owns b _ k h = h

module _ {me : ℕ} {ls : Locks} {t : Thread} where
  -- A CPU comes to own a lock only if it finds it free.
  pub gain :
      {ls' : Locks} {t' : Thread}
      → Move me ls t ls' t'
      → (k : ℕ) → owns t' k ≡ true
      → (owns t k ≡ true) ⊎ ((ls k).locked ≡ false)
  gain (call_acquire l e) k h = ground (arith)
  gain (not_locked l e b) k h = ground (arith)
  gain (is_locked l e b) k h = ground (arith)
  gain (not_mine l e b) k h = ground (arith)
  gain (mine l e b) k h = ground (arith)
  gain (try_busy l e b) k h = ground (arith)
  gain (try_free l e b) k h = ground (arith)
  gain (set_cpu l e) k h = ground (arith)
  gain (call_release l e q) k h = ground (arith)
  gain (still_locked l e b) k h = ground (arith)
  gain (found_unlocked l e b) k h = ground (arith)
  gain (still_mine l e b) k h = ground (arith)
  gain (found_other l e b) k h = ground (arith)
  gain (clear_cpu l e) k h = ground (arith)
  gain (clear_word l e) k h = ground (arith)
  gain (return c e p) k h = ground (arith)
  gain (pop_panic e p) k h = ground (arith)

  pub keep :
      {ls' : Locks} {t' : Thread}
      → Move me ls t ls' t'
      → (k : ℕ) → (pc_owns t.pc k ≡ true → t.held k ≡ false)
      → (owns t k ≡ true → (ls k).locked ≡ true)
      → owns t' k ≡ true
      → (ls' k).locked ≡ true
  keep (call_acquire l e) k a0 b0 h = ground (arith)
  keep (not_locked l e b) k a0 b0 h = ground (arith)
  keep (is_locked l e b) k a0 b0 h = ground (arith)
  keep (not_mine l e b) k a0 b0 h = ground (arith)
  keep (mine l e b) k a0 b0 h = ground (arith)
  keep (try_busy l e b) k a0 b0 h = ground (arith)
  keep (try_free l e b) k a0 b0 h = ground (arith)
  keep (set_cpu l e) k a0 b0 h = ground (arith)
  keep (call_release l e q) k a0 b0 h = ground (arith)
  keep (still_locked l e b) k a0 b0 h = ground (arith)
  keep (found_unlocked l e b) k a0 b0 h = ground (arith)
  keep (still_mine l e b) k a0 b0 h = ground (arith)
  keep (found_other l e b) k a0 b0 h = ground (arith)
  keep (clear_cpu l e) k a0 b0 h = ground (arith)
  keep (clear_word l e) k a0 b0 h = ground (arith)
  keep (return c e p) k a0 b0 h = ground (arith)
  keep (pop_panic e p) k a0 b0 h = ground (arith)

  -- Only the owner makes a lock free.
  pub free :
      {ls' : Locks} {t' : Thread}
      → Move me ls t ls' t'
      → (k : ℕ) → (ls' k).locked ≡ false
      → ((ls k).locked ≡ false) ⊎ (owns t k ≡ true)
  free (call_acquire l e) k h = ground (arith)
  free (not_locked l e b) k h = ground (arith)
  free (is_locked l e b) k h = ground (arith)
  free (not_mine l e b) k h = ground (arith)
  free (mine l e b) k h = ground (arith)
  free (try_busy l e b) k h = ground (arith)
  free (try_free l e b) k h = ground (arith)
  free (set_cpu l e) k h = ground (arith)
  free (call_release l e q) k h = ground (arith)
  free (still_locked l e b) k h = ground (arith)
  free (found_unlocked l e b) k h = ground (arith)
  free (still_mine l e b) k h = ground (arith)
  free (found_other l e b) k h = ground (arith)
  free (clear_cpu l e) k h = ground (arith)
  free (clear_word l e) k h = ground (arith)
  free (return c e p) k h = ground (arith)
  free (pop_panic e p) k h = ground (arith)

  pub name :
      {ls' : Locks} {t' : Thread}
      → Move me ls t ls' t'
      → (k : ℕ) → (pc_owns t.pc k ≡ true → t.held k ≡ false)
      → (named t k ≡ true → (ls k).cpu ≡ some me)
      → named t' k ≡ true
      → (ls' k).cpu ≡ some me
  name (call_acquire l e) k a0 c0 h = ground (arith)
  name (not_locked l e b) k a0 c0 h = ground (arith)
  name (is_locked l e b) k a0 c0 h = ground (arith)
  name (not_mine l e b) k a0 c0 h = ground (arith)
  name (mine l e b) k a0 c0 h = ground (arith)
  name (try_busy l e b) k a0 c0 h = ground (arith)
  name (try_free l e b) k a0 c0 h = ground (arith)
  name (set_cpu l e) k a0 c0 h = ground (arith)
  name (call_release l e q) k a0 c0 h = ground (arith)
  name (still_locked l e b) k a0 c0 h = ground (arith)
  name (found_unlocked l e b) k a0 c0 h = ground (arith)
  name (still_mine l e b) k a0 c0 h = ground (arith)
  name (found_other l e b) k a0 c0 h = ground (arith)
  name (clear_cpu l e) k a0 c0 h = ground (arith)
  name (clear_word l e) k a0 c0 h = ground (arith)
  name (return c e p) k a0 c0 h = ground (arith)
  name (pop_panic e p) k a0 c0 h = ground (arith)

  pub same :
      {ls' : Locks} {t' : Thread}
      → Move me ls t ls' t'
      → (k : ℕ) → ((ls' k).cpu ≡ (ls k).cpu) ⊎ (owns t k ≡ true)
  same (call_acquire l e) k = ground (arith)
  same (not_locked l e b) k = ground (arith)
  same (is_locked l e b) k = ground (arith)
  same (not_mine l e b) k = ground (arith)
  same (mine l e b) k = ground (arith)
  same (try_busy l e b) k = ground (arith)
  same (try_free l e b) k = ground (arith)
  same (set_cpu l e) k = ground (arith)
  same (call_release l e q) k = ground (arith)
  same (still_locked l e b) k = ground (arith)
  same (found_unlocked l e b) k = ground (arith)
  same (still_mine l e b) k = ground (arith)
  same (found_other l e b) k = ground (arith)
  same (clear_cpu l e) k = ground (arith)
  same (clear_word l e) k = ground (arith)
  same (return c e p) k = ground (arith)
  same (pop_panic e p) k = ground (arith)

  -- If `lk->cpu` names a CPU after the step, it is as before, or this CPU's own.
  pub trace :
      {ls' : Locks} {t' : Thread}
      → Move me ls t ls' t'
      → (k : ℕ) → (owns t k ≡ true → (ls k).locked ≡ true)
      → (named t k ≡ true → (ls k).cpu ≡ some me)
      → ((ls k).cpu ≡ some me → named t k ≡ true)
      → (i : ℕ) → (ls' k).cpu ≡ some i
      → (((ls k).cpu ≡ some i) × (i ≢ me)) ⊎ ((i ≡ me) × (named t' k ≡ true))
  trace (call_acquire l e) k b0 c0 d0 i h = ground (arith)
  trace (not_locked l e b) k b0 c0 d0 i h = ground (arith)
  trace (is_locked l e b) k b0 c0 d0 i h = ground (arith)
  trace (not_mine l e b) k b0 c0 d0 i h = ground (arith)
  trace (mine l e b) k b0 c0 d0 i h = ground (arith)
  trace (try_busy l e b) k b0 c0 d0 i h = ground (arith)
  trace (try_free l e b) k b0 c0 d0 i h = ground (arith)
  trace (set_cpu l e) k b0 c0 d0 i h = ground (arith)
  trace (call_release l e q) k b0 c0 d0 i h = ground (arith)
  trace (still_locked l e b) k b0 c0 d0 i h = ground (arith)
  trace (found_unlocked l e b) k b0 c0 d0 i h = ground (arith)
  trace (still_mine l e b) k b0 c0 d0 i h = ground (arith)
  trace (found_other l e b) k b0 c0 d0 i h = ground (arith)
  trace (clear_cpu l e) k b0 c0 d0 i h = ground (arith)
  trace (clear_word l e) k b0 c0 d0 i h = ground (arith)
  trace (return c e p) k b0 c0 d0 i h = ground (arith)
  trace (pop_panic e p) k b0 c0 d0 i h = ground (arith)

  -- A lock is not both held and on the way in or out.
  pub split :
      {ls' : Locks} {t' : Thread}
      → Move me ls t ls' t'
      → (k : ℕ) → (pc_owns t.pc k ≡ true → t.held k ≡ false)
      → (owns t k ≡ true → (ls k).locked ≡ true)
      → pc_owns t'.pc k ≡ true
      → t'.held k ≡ false
  split (call_acquire l e) k a0 b0 h = ground (arith)
  split (not_locked l e b) k a0 b0 h = ground (arith)
  split (is_locked l e b) k a0 b0 h = ground (arith)
  split (not_mine l e b) k a0 b0 h = ground (arith)
  split (mine l e b) k a0 b0 h = ground (arith)
  split (try_busy l e b) k a0 b0 h = ground (arith)
  split (try_free l e b) k a0 b0 h = ground (arith)
  split (set_cpu l e) k a0 b0 h = ground (arith)
  split (call_release l e q) k a0 b0 h = ground (arith)
  split (still_locked l e b) k a0 b0 h = ground (arith)
  split (found_unlocked l e b) k a0 b0 h = ground (arith)
  split (still_mine l e b) k a0 b0 h = ground (arith)
  split (found_other l e b) k a0 b0 h = ground (arith)
  split (clear_cpu l e) k a0 b0 h = ground (arith)
  split (clear_word l e) k a0 b0 h = ground (arith)
  split (return c e p) k a0 b0 h = ground (arith)
  split (pop_panic e p) k a0 b0 h = ground (arith)
