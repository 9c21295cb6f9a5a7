-- ===== src/Dir/Lookup.antt =====
-- `dirlookup` of kernel/fs.c against the entries of the directory.
use paddle_os.Prelude.{
  ◌==◌, Bool-cases, put, if-true, if-false, Outcome, ◌>>=◌, ℕ, ◌+◌, ◌*◌, ◌<◌, ◌≡◌, ap, ◌∙◌, fun_ext,
  inl, inr, true, false, Option, none, some, List, arith, ok,
}
use paddle_os.Memory.{Mem}
use paddle_os.Fs.{Fs}
use paddle_os.Inode.{Inode, Itable, iget}
use paddle_os.Dir.{t_dir, dirent_size, find_entry, dirlookup}
use paddle_os.Dir.Entries.{IsDir, entry_inum, matches, Found, found, absent, find_entry-Found}

-- What `dirlookup` answers for a name in the directory `dp`.
pub data Lookup (name : List ℕ) (dp : Inode) (t : Itable) (fs : Fs)
    : Outcome (Option (ℕ × ℕ) × Itable × Fs) → Type 0 where
  there :
      (k : ℕ)
      → dirent_size * k < dp.size
      → matches name dp fs k ≡ true
      → ((j : ℕ) → j < k → matches name dp fs j ≡ false)
      → Lookup name dp t fs
          (iget (entry_inum dp fs k) t >>= λ g. ok (some (g.0, dirent_size * k), g.1, fs))
  missing :
      ((j : ℕ) → dirent_size * j < dp.size → matches name dp fs j ≡ false)
      → Lookup name dp t fs (ok (none, t, fs))

put-same : (t : Itable) (i : ℕ) → put t i (t i) ≡ t
put-same t i = fun_ext (λ j. elim (Bool-cases (i == j)) [
  | inl e ↦ if-true (i == j) _ _ e ∙ ap t (ground (arith, e))
  | inr e ↦ if-false (i == j) _ _ e
])

Lookup-Found :
    (name : List ℕ) (i : ℕ) (t : Itable) (fs : Fs) (r : Outcome (Option (ℕ × ℕ) × Inode × Fs))
    → Found name (t i) fs r
    → Lookup name (t i) t fs (
        r >>= λ r. elim r.0 [
          | none ↦ ok (none, put t i r.1, r.2)
          | some e ↦ iget e.0 (put t i r.1) >>= λ g. ok (some (g.0, e.1), g.1, r.2)
        ])
Lookup-Found name i t fs r (found k l m before) = rw (put-same t i) (there k l m before)
Lookup-Found name i t fs r (absent m) = rw (put-same t i) (missing m)

-- `dirlookup` in a directory of whole entries, in blocks that are there, finds the first entry that
-- is in use and has the name, where names are the same if their first 14 bytes up to a 0 are, and
-- answers with the inode that `iget` gives for its number; it answers 0 where no entry has the
-- name. It does not write to the disk.
pub dirlookup_lem :
    (name : List ℕ) (de : Mem) (i : ℕ) (t : Itable) (fs : Fs)
    → IsDir (t i) fs
    → (t i).kind ≡ t_dir
    → Lookup name (t i) t fs (dirlookup name de i t fs)
unfolding dirlookup
dirlookup_lem name de i t fs h k = rw (is_dir) (
    Lookup-Found name i t fs (find_entry ((t i).size + 1) 0 name (t i) fs de) (
      find_entry-Found ((t i).size + 1) 0 name (t i) fs de h (omega arith) (omega arith)
        (λ j l. absurd (omega (arith, l)))))
  where
    is_dir : ((t i).kind == t_dir) ≡ true
    is_dir = ground (arith, k)
