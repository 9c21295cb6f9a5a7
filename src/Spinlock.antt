-- ===== src/Spinlock.antt =====
-- kernel/spinlock.c: spin locks, and the nesting of "interrupts off".
-- The per-CPU functions are functions of the CPU's own state. The locks are shared: `acquire` and
-- `release` are taken apart into their single accesses to the lock, so that CPUs interleave between
-- any two of them (System). The fences of `__sync_synchronize` make this order of accesses the one
-- that the other CPUs see, and are not modelled apart.
pub mod Interrupts
pub mod System
pub mod Exclusion
mod Tests
use paddle_os.Prelude.{
  ltb, ◌==◌, if◌then◌else◌, Outcome, ℕ, ◌+◌, ◌-◌, Bool, true, false, ◌&&◌, Option, none, some, ok,
  panic,
}

-- `noff` and `intena` of `struct cpu`, and the interrupt-enable bit of sstatus
pub record Cpu : Type 0 where
  pub noff : ℕ
  pub intena : Bool
  pub intr : Bool

-- `struct spinlock`; `cpu` is the index of the CPU, `none` for the null pointer
pub record Spinlock : Type 0 where
  pub locked : Bool
  pub cpu : Option ℕ

unfoldable pub initlock : Spinlock
initlock = record { locked = false; cpu = none }

unfoldable pub push_off : Cpu → Cpu
push_off c = record {
  noff = c.noff + 1;
  intena = if c.noff == 0 then c.intr else c.intena;
  intr = false;
}

unfoldable pub pop_off : Cpu → Outcome Cpu
pop_off c =
    if c.intr
    then panic
    else if ltb c.noff 1
    then panic
    else ok (record c {
      noff = c.noff - 1;
      intr = if (c.noff - 1 == 0) && c.intena then true else c.intr;
    })

-- `lock->cpu == mycpu()`
abbrev pub is_cpu : Option ℕ → ℕ → Bool
is_cpu none me = false
is_cpu (some i) me = i == me

unfoldable pub holding : ℕ → Spinlock → Bool
holding me lk = lk.locked && is_cpu lk.cpu me
