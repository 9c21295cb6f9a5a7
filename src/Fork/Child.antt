-- ===== src/Fork/Child.antt =====
-- The child of `fork` of kernel/proc.c.
use paddle_os.Prelude.{Outcome, ◌>>=◌, ℕ, ◌+◌, ◌<◌, ◌≡◌, Bool, true, false, Option, none, some, ok}
use paddle_os.Memory.Words.{load_word}
use paddle_os.Kalloc.{Kmem}
use paddle_os.Proc.{unused, runnable}
use paddle_os.File.Refs.{HasRefs}
use paddle_os.Sysfile.{nofile}
use paddle_os.Sysfile.Descriptors.{held}
use paddle_os.Fork.{Machine, free_pages}

-- How `fork` ends for the entry `np`, where `copied` is whether there was memory for the copy, and
-- `k` the memory after it.
pub data Forked (kernel_end me np : ℕ) (others : ℕ → ℕ) (m : Machine) (k : Kmem)
    : (copied : Bool) → Outcome (Option ℕ × Machine) → Type 0 where
  no_memory :
      (left : Kmem → Machine)
      → ((k' : Kmem) → (left k').kmem ≡ k')
      → ((k' : Kmem) → ((left k').table.procs np).state ≡ unused)
      → ((k' : Kmem) → (left k').files ≡ m.files)
      → ((k' : Kmem) → (left k').ofiles ≡ m.ofiles)
      → ((k' : Kmem) → (left k').itable ≡ m.itable)
      → Forked kernel_end me np others m k false
          (free_pages kernel_end (m.table.procs np) k >>= λ k'. ok (none, left k'))
  forked :
      (m' : Machine)
      → (m'.table.procs np).state ≡ runnable
      → (m'.table.procs np).parent ≡ some me
      → (m'.table.procs np).sz ≡ (m.table.procs me).sz
      → load_word 8 m'.kmem.mem ((m.table.procs np).trapframe + 112) ≡ 0
      → ((j : ℕ) → j < nofile → m'.ofiles np j ≡ m.ofiles me j)
      → HasRefs m'.files (held (m'.ofiles np) (held (m.ofiles me) others))
      → m'.cwds np ≡ m.cwds me
      → (m'.itable (m.cwds me)).ref ≡ (m.itable (m.cwds me)).ref + 1
      → Forked kernel_end me np others m k true (ok (some (m.table.procs np).pid, m'))
