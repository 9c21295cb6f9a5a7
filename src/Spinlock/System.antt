-- ===== src/Spinlock/System.antt =====
-- `acquire` and `release` of kernel/spinlock.c on many CPUs and many locks, one shared access at a
-- time. What a CPU does between its calls is left open: at `outside` it may call `acquire` for any
-- lock, and `release` for a lock that it holds.
use paddle_os.Prelude.{put, ℕ, ◌≡◌, Bool, true, false, Option, none, some, ok, panic}
use paddle_os.Spinlock.{Cpu, Spinlock, initlock, push_off, pop_off, is_cpu}

-- where a CPU stands
pub data Pc : Type 0 where
  outside : Pc
  acquire_locked : ℕ → Pc  -- `holding` of `acquire`, before it reads `locked`
  acquire_cpu : ℕ → Pc  -- the same, before it reads `cpu`
  spin : ℕ → Pc  -- the `while` of `acquire`
  taken : ℕ → Pc  -- behind the loop, before `lk->cpu = mycpu()`
  release_locked : ℕ → Pc  -- `holding` of `release`
  release_cpu : ℕ → Pc
  clear : ℕ → Pc  -- before `lk->cpu = 0`
  unlock : ℕ → Pc  -- before `__sync_lock_release`
  leave : Pc  -- before the `pop_off` of `release`
  panicked : Pc

-- `held`: the locks whose `acquire` has returned and whose `release` is not called yet
pub record Thread : Type 0 where
  pub pc : Pc
  pub held : ℕ → Bool
  pub cpu : Cpu

abbrev pub Locks : Type 0
Locks = ℕ → Spinlock

abbrev pub at : Thread → Pc → Thread
at t p = record t { pc = p }

abbrev pub lock_word : Locks → ℕ → Bool → Locks
lock_word ls l b = put ls l (record (ls l) { locked = b })

abbrev pub lock_cpu : Locks → ℕ → Option ℕ → Locks
lock_cpu ls l c = put ls l (record (ls l) { cpu = c })

-- One step of CPU `me`. A read decides the branch of the code that the step takes.
pub data Move (me : ℕ) (ls : Locks) (t : Thread) : Locks → Thread → Type 0 where
  call_acquire :
      (l : ℕ)
      → t.pc ≡ outside
      → Move me ls t ls (record t { pc = acquire_locked l; cpu = push_off t.cpu })
  not_locked :
      (l : ℕ) → t.pc ≡ acquire_locked l → (ls l).locked ≡ false → Move me ls t ls (at t (spin l))
  is_locked :
      (l : ℕ)
      → t.pc ≡ acquire_locked l
      → (ls l).locked ≡ true
      → Move me ls t ls (at t (acquire_cpu l))
  not_mine :
      (l : ℕ)
      → t.pc ≡ acquire_cpu l
      → is_cpu (ls l).cpu me ≡ false
      → Move me ls t ls (at t (spin l))
  mine :
      (l : ℕ) → t.pc ≡ acquire_cpu l → is_cpu (ls l).cpu me ≡ true → Move me ls t ls (at t panicked)
  try_busy : (l : ℕ) → t.pc ≡ spin l → (ls l).locked ≡ true → Move me ls t (lock_word ls l true) t
  try_free :
      (l : ℕ)
      → t.pc ≡ spin l
      → (ls l).locked ≡ false
      → Move me ls t (lock_word ls l true) (at t (taken l))
  set_cpu :
      (l : ℕ)
      → t.pc ≡ taken l
      → Move me ls t (lock_cpu ls l (some me)) (record t { pc = outside; held = put t.held l true })
  call_release :
      (l : ℕ)
      → t.pc ≡ outside
      → t.held l ≡ true
      → Move me ls t ls (record t { pc = release_locked l; held = put t.held l false })
  still_locked :
      (l : ℕ)
      → t.pc ≡ release_locked l
      → (ls l).locked ≡ true
      → Move me ls t ls (at t (release_cpu l))
  found_unlocked :
      (l : ℕ) → t.pc ≡ release_locked l → (ls l).locked ≡ false → Move me ls t ls (at t panicked)
  still_mine :
      (l : ℕ)
      → t.pc ≡ release_cpu l
      → is_cpu (ls l).cpu me ≡ true
      → Move me ls t ls (at t (clear l))
  found_other :
      (l : ℕ)
      → t.pc ≡ release_cpu l
      → is_cpu (ls l).cpu me ≡ false
      → Move me ls t ls (at t panicked)
  clear_cpu : (l : ℕ) → t.pc ≡ clear l → Move me ls t (lock_cpu ls l none) (at t (unlock l))
  clear_word : (l : ℕ) → t.pc ≡ unlock l → Move me ls t (lock_word ls l false) (at t leave)
  return :
      (c : Cpu)
      → t.pc ≡ leave
      → pop_off t.cpu ≡ ok c
      → Move me ls t ls (record t { pc = outside; cpu = c })
  pop_panic : t.pc ≡ leave → pop_off t.cpu ≡ panic → Move me ls t ls (at t panicked)

pub record System : Type 0 where
  pub locks : Locks
  pub threads : ℕ → Thread

pub data Step (s : System) : System → Type 0 where
  pick :
      (me : ℕ) {ls : Locks} {t : Thread}
      → Move me s.locks (s.threads me) ls t
      → Step s (record { locks = ls; threads = put s.threads me t })

-- Every lock is fresh from `initlock`, and every CPU is outside the locks.
unfoldable pub init : (ℕ → Cpu) → System
unfolding initlock
init cpus = record {
  locks = λ l. initlock;
  threads = λ i. record { pc = outside; held = λ l. false; cpu = cpus i };
}

pub data Reach (s : System) : System → Type 0 where
  here : Reach s s
  later : {t u : System} → Reach s t → Step t u → Reach s u
