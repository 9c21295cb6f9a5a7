-- ===== src/Dir/Entries.antt =====
-- The entries of a directory in kernel/fs.c, and the search for a name.
use paddle_os.Prelude.{
  ltb, ◌==◌, if◌then◌else◌, Bool-cases, step_below, Outcome, ℕ, zero, suc, ◌+◌, ◌*◌, ◌%◌, ◌≤◌, ◌<◌,
  ◌≡◌, refl, transport, ap, ◌∙◌, inl, inr, Bool, true, false, not, ◌&&◌, Option, none, some, List,
  [], ◌∷◌, arith, ok,
}
use paddle_os.Memory.{Mem}
use paddle_os.Memory.Words.{load_word}
use paddle_os.Fs.{Fs}
use paddle_os.Inode.{Inode}
use paddle_os.Path.{dirsiz}
use paddle_os.Data.{read_bytes, write_bytes, readi}
use paddle_os.Data.Content.{IsMapped, file_byte, file_bytes}
use paddle_os.Data.Read.{kernel_copyout, readi_lem}
use paddle_os.Dir.{dirent_size, same_bytes, namecmp, de_inum, de_name, find_entry}

-- a directory: whole entries, in blocks that are there
pub record IsDir (ip : Inode) (fs : Fs) : Type 0 where
  pub mapped : IsMapped ip fs
  pub whole : ip.size % dirent_size ≡ 0

abbrev pub entry_inum : Inode → Fs → ℕ → ℕ
entry_inum ip fs k =
    file_byte ip fs (dirent_size * k) + 256 * file_byte ip fs (suc (dirent_size * k))

abbrev pub entry_name : Inode → Fs → ℕ → List ℕ
entry_name ip fs k = file_bytes dirsiz (suc (suc (dirent_size * k))) ip fs

-- the first `n` bytes of a name, up to a 0
unfoldable pub cut : (n : ℕ) → List ℕ → List ℕ
cut zero s = []
cut (suc n) [] = []
cut (suc n) (c ∷ s) = if c == 0 then [] else c ∷ cut n s

unfoldable pub same_list : List ℕ → List ℕ → Bool
same_list [] [] = true
same_list [] (y ∷ t) = false
same_list (x ∷ s) [] = false
same_list (x ∷ s) (y ∷ t) = x == y && same_list s t

-- Whether the entry `k` is in use and has the name: both are the same 14 bytes at most before a 0.
abbrev pub matches : (name : List ℕ) → Inode → Fs → ℕ → Bool
matches name ip fs k =
    not (entry_inum ip fs k == 0) && same_list (cut dirsiz name) (cut dirsiz (entry_name ip fs k))

same_bytes-cut : (n : ℕ) (s t : List ℕ) → same_bytes n s t ≡ same_list (cut n s) (cut n t)
unfolding same_bytes cut same_list
same_bytes-cut zero s t = refl
same_bytes-cut (suc n) [] [] = refl
same_bytes-cut (suc n) [] (y ∷ t) = ground arith
same_bytes-cut (suc n) (x ∷ s) [] = ground arith
same_bytes-cut (suc n) (x ∷ s) (y ∷ t) = ground (arith, same_bytes-cut n s t)

namecmp-cut : (s t : List ℕ) → namecmp s t ≡ same_list (cut dirsiz s) (cut dirsiz t)
namecmp-cut s t = same_bytes-cut dirsiz s t

-- What the search found: the first entry with the name, or that there is none.
pub data Found (name : List ℕ) (ip : Inode) (fs : Fs)
    : Outcome (Option (ℕ × ℕ) × Inode × Fs) → Type 0 where
  found :
      (k : ℕ)
      → dirent_size * k < ip.size
      → matches name ip fs k ≡ true
      → ((j : ℕ) → j < k → matches name ip fs j ≡ false)
      → Found name ip fs (ok (some (entry_inum ip fs k, dirent_size * k), ip, fs))
  absent :
      ((j : ℕ) → dirent_size * j < ip.size → matches name ip fs j ≡ false)
      → Found name ip fs (ok (none, ip, fs))

-- `de` after the read
abbrev pub entry_mem : Inode → Fs → (off : ℕ) → Mem → Mem
entry_mem ip fs off de = write_bytes (file_bytes dirent_size off ip fs) 0 de

pub de_inum-entry_mem :
    (ip : Inode) (fs : Fs) (k : ℕ) (de : Mem)
    → de_inum (entry_mem ip fs (dirent_size * k) de) ≡ entry_inum ip fs k
unfolding load_word write_bytes file_bytes
de_inum-entry_mem ip fs k de = omega arith

de_name-entry_mem :
    (ip : Inode) (fs : Fs) (k : ℕ) (de : Mem)
    → de_name (entry_mem ip fs (dirent_size * k) de) ≡ entry_name ip fs k
unfolding read_bytes write_bytes file_bytes
de_name-entry_mem ip fs k de = refl

pub read_entry :
    (k : ℕ) (ip : Inode) (fs : Fs) (de : Mem)
    → IsDir ip fs
    → dirent_size * k < ip.size
    → readi kernel_copyout 0 (dirent_size * k) dirent_size ip fs de
      ≡ ok (some dirent_size, ip, fs, entry_mem ip fs (dirent_size * k) de)
read_entry k ip fs de h l =
    readi_lem 0 (dirent_size * k) dirent_size ip fs de h.mapped (omega (arith, l, h.mapped.size))
    ∙ ap (λ n. ok (some n, ip, fs, write_bytes (file_bytes n (dirent_size * k) ip fs) 0 de))
        (omega (arith, l, h.whole))

no_match :
    (name : List ℕ) (ip : Inode) (fs : Fs) (k : ℕ)
    → ((j : ℕ) → j < k → matches name ip fs j ≡ false)
    → matches name ip fs k ≡ false
    → (j : ℕ) → j < suc k
    → matches name ip fs j ≡ false
no_match name ip fs k before e j = step_below (λ j. matches name ip fs j ≡ false) j k (before j) e

pub next_off : (k : ℕ) → dirent_size * suc k ≡ dirent_size * k + dirent_size
next_off k = omega arith

-- With a round for each entry that is left and one to stop, the search ends with an answer.
pub find_entry-Found :
    (fuel k : ℕ) (name : List ℕ) (ip : Inode) (fs : Fs) (de : Mem)
    → IsDir ip fs
    → ip.size + dirent_size ≤ dirent_size * (k + fuel)
    → dirent_size * k < ip.size + dirent_size
    → ((j : ℕ) → j < k → matches name ip fs j ≡ false)
    → Found name ip fs (find_entry fuel (dirent_size * k) name ip fs de)
unfolding find_entry
find_entry-Found zero k name ip fs de h f g before = absurd (omega (arith, f, g))
find_entry-Found (suc fuel) k name ip fs de h f g before =
    elim (Bool-cases (ltb (dirent_size * k) ip.size)) [
      | inl l ↦
          let rest : matches name ip fs k ≡ false
              → Found name ip fs (
                  find_entry fuel (dirent_size * k + dirent_size) name ip fs
                    (entry_mem ip fs (dirent_size * k) de)) =
            λ e.
              transport
                (λ i. Found name ip fs (
                  find_entry fuel (next_off k i) name ip fs (entry_mem ip fs (dirent_size * k) de)))
                (find_entry-Found fuel (suc k) name ip fs (entry_mem ip fs (dirent_size * k) de) h
                  (omega (arith, f)) (ground (arith, l)) (no_match name ip fs k before e)) in
          rw
            (
              l,
              read_entry k ip fs de h (ground (arith, l)),
              de_inum-entry_mem,
              de_name-entry_mem,
              namecmp-cut name (entry_name ip fs k),
            )
            (elim (Bool-cases (entry_inum ip fs k == 0)) [
              | inl z ↦ rw z (rest (ground (arith, z)))
              | inr z ↦
                  elim (Bool-cases
                    (same_list (cut dirsiz name) (cut dirsiz (entry_name ip fs k)))) [
                      | inl n ↦ rw (z, n) (found k (ground (arith, l)) (rw (z, n) refl) before)
                      | inr n ↦ rw (z, n) (rest (rw (z, n) refl))
                    ]
            ])
      | inr e ↦ rw e (absent (λ j l. before j (ground (arith, l, e))))
    ]
