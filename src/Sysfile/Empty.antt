-- ===== src/Sysfile/Empty.antt =====
-- `isdirempty` of kernel/sysfile.c against the entries of the directory.
use paddle_os.Prelude.{
  ltb, ◌==◌, Bool-cases, step_below, Outcome, ℕ, zero, suc, ◌+◌, ◌*◌, ◌≤◌, ◌<◌, ◌≡◌, transport, inl,
  inr, Bool, true, false, arith, ok,
}
use paddle_os.Memory.{Mem}
use paddle_os.Fs.{Fs}
use paddle_os.Inode.{Inode}
use paddle_os.Dir.{dirent_size}
use paddle_os.Dir.Entries.{IsDir, entry_inum, entry_mem, de_inum-entry_mem, read_entry, next_off}
use paddle_os.Sysfile.{scan_empty, isdirempty}

-- What `isdirempty` answers: whether some entry behind the first two is in use.
pub data Emptiness (ip : Inode) (fs : Fs) : Outcome (Bool × Inode × Fs) → Type 0 where
  empty :
      ((j : ℕ) → 2 ≤ j → dirent_size * j < ip.size → entry_inum ip fs j ≡ 0)
      → Emptiness ip fs (ok (true, ip, fs))
  in_use :
      (k : ℕ)
      → 2 ≤ k
      → dirent_size * k < ip.size
      → 0 < entry_inum ip fs k
      → Emptiness ip fs (ok (false, ip, fs))

one_more_free :
    (ip : Inode) (fs : Fs) (k : ℕ)
    → ((j : ℕ) → 2 ≤ j → j < k → entry_inum ip fs j ≡ 0)
    → entry_inum ip fs k ≡ 0
    → (j : ℕ) → 2 ≤ j
    → j < suc k
    → entry_inum ip fs j ≡ 0
one_more_free ip fs k before e j a = step_below (λ j. entry_inum ip fs j ≡ 0) j k (before j a) e

scan_empty-Emptiness :
    (fuel k : ℕ) (ip : Inode) (fs : Fs) (de : Mem)
    → IsDir ip fs
    → 2 ≤ k
    → ip.size + dirent_size ≤ dirent_size * (k + fuel)
    → ((j : ℕ) → 2 ≤ j → j < k → entry_inum ip fs j ≡ 0)
    → 0 < fuel
    → Emptiness ip fs (scan_empty fuel (dirent_size * k) ip fs de)
unfolding scan_empty
scan_empty-Emptiness zero k ip fs de h a f before g = absurd (omega (arith, g))
scan_empty-Emptiness (suc fuel) k ip fs de h a f before g =
    elim (Bool-cases (ltb (dirent_size * k) ip.size)) [
      | inl l ↦
          let rest : entry_inum ip fs k ≡ 0
              → Emptiness ip fs (
                  scan_empty fuel (dirent_size * k + dirent_size) ip fs
                    (entry_mem ip fs (dirent_size * k) de)) =
            λ e.
              transport
                (λ i.
                  Emptiness ip fs
                    (scan_empty fuel (next_off k i) ip fs (entry_mem ip fs (dirent_size * k) de)))
                (scan_empty-Emptiness fuel (suc k) ip fs (entry_mem ip fs (dirent_size * k) de) h
                  (omega (arith, a)) (omega (arith, f)) (one_more_free ip fs k before e)
                  (ground (arith, f, l))) in
          rw (l, read_entry k ip fs de h (ground (arith, l)), de_inum-entry_mem)
            (elim (Bool-cases (entry_inum ip fs k == 0)) [
              | inl z ↦ rw z (rest (ground (arith, z)))
              | inr z ↦ rw z (in_use k a (ground (arith, l)) (ground (arith, z)))
            ])
      | inr e ↦ rw e (empty (λ j b l. before j b (ground (arith, l, e))))
    ]

-- `isdirempty` of a directory of whole entries, in blocks that are there, tells whether no entry
-- behind the first two, `.` and `..`, is in use. It ends, and writes nothing.
pub isdirempty_lem :
    (de : Mem) (ip : Inode) (fs : Fs) → IsDir ip fs → Emptiness ip fs (isdirempty de ip fs)
unfolding isdirempty
isdirempty_lem de ip fs h =
    scan_empty-Emptiness (ip.size + 1) 2 ip fs de h (omega arith) (omega arith)
      (λ j a b. absurd (omega (arith, a, b))) (omega arith)
