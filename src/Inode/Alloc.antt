-- ===== src/Inode/Alloc.antt =====
-- `ialloc` of kernel/fs.c: the first inode of the disk without a type.
use paddle_os.Prelude.{
  ◌==◌, if◌then◌else◌, Bool-cases, put, step_below, Outcome, ◌>>=◌, ℕ, zero, suc, ◌+◌, ◌-◌, ◌^◌,
  ◌≤◌, ◌<◌, ◌≡◌, refl, transport, ap, ◌∙◌, ◌≢◌, inl, inr, true, false, ◌&&◌, Option, none, some,
  arith, ok,
}
use paddle_os.Memory.{memset}
use paddle_os.Memory.Move.{inside, memset_lem}
use paddle_os.Memory.Words.{load_word, store_word, store_word-outside, load_word-store_word}
use paddle_os.Fs.{Fs}
use paddle_os.Inode.{Itable, inode_block, inode_offset, iget}

-- `dip->type`
unfoldable pub disk_type : (inodestart inum : ℕ) → Fs → ℕ
disk_type s inum fs = load_word 2 (fs.block (inode_block s inum)) (inode_offset inum)

-- `memset(dip, 0, sizeof(*dip)); dip->type = type; log_write(bp);`
unfoldable pub clear_inode : (inodestart inum kind : ℕ) → Fs → Fs
clear_inode s inum kind fs =
    let bp = inode_block s inum in
    let a = inode_offset inum in
    record fs {
      block = put fs.block bp (store_word 2 (memset a 0 64 (fs.block bp)) a kind);
      logged = put fs.logged bp true;
    }

-- The loop of `ialloc`, with `left` inodes to go; `none` is the null pointer.
unfoldable pub ialloc_from :
    (left inodestart inum kind : ℕ) → Fs → Itable → Outcome (Option ℕ × Fs × Itable)
ialloc_from zero s inum kind fs t = ok (none, fs, t)
ialloc_from (suc left) s inum kind fs t =
    let rest = ialloc_from left s (suc inum) kind fs t in
    if disk_type s inum fs == 0
    then (iget inum t >>= λ r. ok (some r.0, clear_inode s inum kind fs, r.1))
    else rest

unfoldable pub ialloc :
    (ninodes inodestart kind : ℕ) → Fs → Itable → Outcome (Option ℕ × Fs × Itable)
ialloc ninodes s kind fs t = ialloc_from (ninodes - 1) s 1 kind fs t

-- The bytes of the inode `n` are its type and zeros, and all others are as before.
pub record Cleared (s n kind : ℕ) (fs fs' : Fs) : Type 0 where
  pub type : disk_type s n fs' ≡ kind
  pub zeros : (i : ℕ) → 2 ≤ i → i < 64 → fs'.block (inode_block s n) (inode_offset n + i) ≡ 0
  pub others :
      (c b : ℕ)
      → (inode_block s n == c && inside b (inode_offset n) 64) ≡ false
      → fs'.block c b ≡ fs.block c b

-- what `ialloc` may return
pub data Ialloc (ninodes s kind : ℕ) (fs : Fs) (t : Itable)
    : Outcome (Option ℕ × Fs × Itable) → Type 0 where
  all_typed :
      ((m : ℕ) → 0 < m → m < ninodes → disk_type s m fs ≢ 0)
      → Ialloc ninodes s kind fs t (ok (none, fs, t))
  took :
      (n : ℕ) (fs' : Fs)
      → 0 < n
      → n < ninodes
      → disk_type s n fs ≡ 0
      → ((m : ℕ) → 0 < m → m < n → disk_type s m fs ≢ 0)
      → Cleared s n kind fs fs'
      → Ialloc ninodes s kind fs t (iget n t >>= λ r. ok (some r.0, fs', r.1))

block-clear_inode :
    (s n kind c : ℕ) (fs : Fs)
    → inode_block s n ≡ c
    → (clear_inode s n kind fs).block c
      ≡ store_word 2 (memset (inode_offset n) 0 64 (fs.block c)) (inode_offset n) kind
unfolding clear_inode
block-clear_inode s n kind c fs e =
    transport
      (λ i.
        put fs.block (inode_block s n)
          (store_word 2 (memset (inode_offset n) 0 64 (fs.block (inode_block s n))) (inode_offset n)
            kind)
          (e i)
        ≡ store_word 2 (memset (inode_offset n) 0 64 (fs.block (e i))) (inode_offset n) kind)
      (ground arith)

-- a byte behind the type
byte-clear_inode :
    (s n kind c b : ℕ) (fs : Fs)
    → inode_block s n ≡ c
    → inside b (inode_offset n) 2 ≡ false
    → (clear_inode s n kind fs).block c b
      ≡ (if inside b (inode_offset n) 64 then 0 else fs.block c b)
byte-clear_inode s n kind c b fs e o =
    ap (λ m. m b) (block-clear_inode s n kind c fs e)
    ∙ store_word-outside 2 (memset (inode_offset n) 0 64 (fs.block c)) (inode_offset n) kind b o
    ∙ memset_lem (inode_offset n) 0 64 (fs.block c) b

elsewhere-clear_inode :
    (s n kind c b : ℕ) (fs : Fs)
    → (inode_block s n == c) ≡ false
    → (clear_inode s n kind fs).block c b ≡ fs.block c b
unfolding clear_inode
elsewhere-clear_inode s n kind c b fs e = ground (arith, e)

Cleared-clear_inode :
    (s n kind : ℕ) (fs : Fs) → kind < 2 ^ 16 → Cleared s n kind fs (clear_inode s n kind fs)
unfolding disk_type
Cleared-clear_inode s n kind fs h = record {
  type =
      ap (λ m. load_word 2 m (inode_offset n))
        (block-clear_inode s n kind (inode_block s n) fs refl)
      ∙ load_word-store_word 2 (memset (inode_offset n) 0 64 (fs.block (inode_block s n)))
          (inode_offset n) kind h;
  zeros = λ i l u. ground (
    arith,
    l,
    u,
    byte-clear_inode s n kind (inode_block s n) (inode_offset n + i) fs refl (ground (arith, l)),
  );
  others = λ c b e. elim (Bool-cases (inode_block s n == c)) [
    | inl q ↦
        ground
          (arith, e, q, byte-clear_inode s n kind c b fs (ground (arith, q)) (ground (arith, e, q)))
    | inr q ↦ elsewhere-clear_inode s n kind c b fs q
  ];
}

ialloc_from-Ialloc :
    (left ninodes s n kind : ℕ) (fs : Fs) (t : Itable)
    → kind < 2 ^ 16
    → 0 < n
    → left ≡ ninodes - n
    → ((m : ℕ) → 0 < m → m < n → disk_type s m fs ≢ 0)
    → Ialloc ninodes s kind fs t (ialloc_from left s n kind fs t)
unfolding ialloc_from
ialloc_from-Ialloc zero ninodes s n kind fs t k p e f =
    all_typed (λ m q l. f m q (omega (arith, e, l)))
ialloc_from-Ialloc (suc left) ninodes s n kind fs t k p e f =
    elim (Bool-cases (disk_type s n fs == 0)) [
      | inl z ↦ rw z (
          took n (clear_inode s n kind fs) p (omega (arith, e)) (ground (arith, z)) f
            (Cleared-clear_inode s n kind fs k))
      | inr z ↦ rw z (
          ialloc_from-Ialloc left ninodes s (suc n) kind fs t k (omega arith) (omega (arith, e))
            (λ m q. step_below (λ m. disk_type s m fs ≢ 0) m n (f m q) (ground (arith, z))))
    ]

-- `ialloc` of a type that fits 16 bits takes the first inode, from 1 on, whose type on the disk is 0;
-- there it writes the type and clears all else, and no other byte of the disk changes. It answers
-- 0 where every inode has a type.
pub ialloc_lem :
    (ninodes s kind : ℕ) (fs : Fs) (t : Itable)
    → kind < 2 ^ 16
    → Ialloc ninodes s kind fs t (ialloc ninodes s kind fs t)
unfolding ialloc
ialloc_lem ninodes s kind fs t k =
    ialloc_from-Ialloc (ninodes - 1) ninodes s 1 kind fs t k (omega arith) (omega arith)
      (λ m q l. absurd (omega (arith, q, l)))
