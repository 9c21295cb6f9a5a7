-- ===== src/Spinlock/Tests.antt =====
-- Runs of kernel/spinlock.c: CPU 0 takes lock 7, and CPU 1 spins on it.
use paddle_os.Prelude.{◌==◌, if◌then◌else◌, ℕ, ◌≡◌, refl, true, false, [], ◌∷◌, ok}
use paddle_os.Spinlock.{Cpu, push_off, initlock}
use paddle_os.Spinlock.Interrupts.{push, pop, run, depth, run-balanced}
use paddle_os.Spinlock.System.{
  System, pick, init, Reach, here, later, call_acquire, not_locked, try_free, set_cpu,
}
use paddle_os.Spinlock.Exclusion.{mutual_exclusion}

abbrev cpus : ℕ → Cpu
cpus i = record { noff = 0; intena = false; intr = true }

abbrev contended : (s : System) × Reach (init cpus) s
unfolding init initlock push_off
contended = (
  _,
  later
      (later
        (later (later (later here (pick 0 (call_acquire 7 refl))) (pick 0 (not_locked 7 refl refl)))
          (pick 0 (try_free 7 refl refl)))
        (pick 0 (set_cpu 7 refl)))
      (pick 1 (call_acquire 7 refl)),
)

run-balanced_example :
    (c' : Cpu) × (run (push ∷ push ∷ pop ∷ []) (cpus 0) ≡ ok c')
    × (c'.noff ≡ 1)
    × (c'.intr ≡ (if 1 == 0 then true else false))
unfolding depth
run-balanced_example = run-balanced (push ∷ push ∷ pop ∷ []) (cpus 0) 1 refl refl

mutual_exclusion_example : ◌≡◌ {A = ℕ} 0 0
unfolding init initlock push_off
mutual_exclusion_example = mutual_exclusion cpus contended.1 0 0 7 refl refl
