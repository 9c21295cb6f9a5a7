-- ===== src/Data/Block.antt =====
-- One block of a file written from the kernel's memory, in kernel/fs.c.
use paddle_os.Prelude.{
  ltb, ◌==◌, if◌then◌else◌, Bool-cases, put, if-true, if-false, ℕ, zero, suc, ◌+◌, ◌-◌, ◌*◌, ◌/◌,
  ◌%◌, ◌≤◌, ◌<◌, ◌≡◌, refl, sym, ap, ◌∙◌, ◌≢◌, inl, inr, Bool, true, false, List, arith,
}
use paddle_os.Memory.{Mem}
use paddle_os.Memory.Move.{inside}
use paddle_os.Memory.Words.{load_word}
use paddle_os.Fs.{Fs}
use paddle_os.Inode.{Inode, ndirect, inode_block}
use paddle_os.Data.{bsize, read_bytes, write_bytes, fill_block, log_block}
use paddle_os.Data.Content.{IsMapped, block_of, file_byte}

-- `either_copyin` with `user_src` 0: the bytes of the kernel's memory
abbrev pub kernel_copyin : Mem → (src n : ℕ) → List ℕ × Bool
kernel_copyin m src n = (read_bytes n src m, true)

-- The blocks of the file are its own: no block is twice in it, is its block of block numbers, or has
-- the inode.
pub record IsOwner (s : ℕ) (ip : Inode) (fs : Fs) : Type 0 where
  pub mapped : IsMapped ip fs
  pub distinct :
      (i j : ℕ)
      → i * bsize < ip.size
      → j * bsize < ip.size
      → block_of i ip fs ≡ block_of j ip fs
      → i ≡ j
  pub apart :
      (i : ℕ)
      → i * bsize < ip.size
      → (block_of i ip fs ≢ inode_block s ip.inum)
        × (ndirect * bsize < ip.size → block_of i ip fs ≢ ip.addrs ndirect)
  pub numbers : ndirect * bsize < ip.size → ip.addrs ndirect ≢ inode_block s ip.inum

next_inside :
    (n src a b : ℕ) (from m : Mem)
    → (if inside b (suc a) n then from (suc src + (b - suc a)) else put m a (from src) b)
      ≡ (if inside b a (suc n) then from (src + (b - a)) else m b)
next_inside n src a b from m = elim (Bool-cases (inside b (suc a) n)) [
  | inl e ↦
      if-true (inside b (suc a) n) _ _ e
      ∙ ap from (ground (arith, e))
      ∙ sym (if-true (inside b a (suc n)) _ _ (ground (arith, e)))
  | inr e ↦ elim (Bool-cases (a == b)) [
    | inl q ↦
        if-false (inside b (suc a) n) _ _ e
        ∙ if-true (a == b) _ _ q
        ∙ ap from (ground (arith, q))
        ∙ sym (if-true (inside b a (suc n)) _ _ (ground (arith, q)))
    | inr q ↦
        if-false (inside b (suc a) n) _ _ e
        ∙ if-false (a == b) _ _ q
        ∙ sym (if-false (inside b a (suc n)) _ _ (ground (arith, e, q)))
  ]
]

pub write_bytes-read_bytes :
    (n src a : ℕ) (from m : Mem) (b : ℕ)
    → write_bytes (read_bytes n src from) a m b
      ≡ (if inside b a n then from (src + (b - a)) else m b)
unfolding write_bytes read_bytes
write_bytes-read_bytes zero src a from m b = ground arith
write_bytes-read_bytes (suc n) src a from m b =
    write_bytes-read_bytes n (suc src) (suc a) from (put m a (from src)) b
    ∙ next_inside n src a b from m

-- A change of one block of the data keeps the map of the blocks.
pub block_of-same :
    (bn c : ℕ) (ip : Inode) (fs fs' : Fs)
    → bn * bsize < ip.size
    → (ndirect * bsize < ip.size → c ≢ ip.addrs ndirect)
    → ((k : ℕ) → c ≢ k → fs'.block k ≡ fs.block k)
    → block_of bn ip fs' ≡ block_of bn ip fs
unfolding block_of
block_of-same bn c ip fs fs' l h g = elim (Bool-cases (ltb bn ndirect)) [
  | inl e ↦ rw e refl
  | inr e ↦ rw e (
      ap (λ m. load_word 4 m (4 * (bn - ndirect)))
        (g (ip.addrs ndirect) (h (ground (arith, e, l)))))
]

pub IsOwner-same :
    (s : ℕ) (ip : Inode) (fs fs' : Fs)
    → ((bn : ℕ) → bn * bsize < ip.size → block_of bn ip fs' ≡ block_of bn ip fs)
    → IsOwner s ip fs
    → IsOwner s ip fs'
IsOwner-same s ip fs fs' same h = record {
  mapped = record {
    size = h.mapped.size;
    blocks = λ bn k z. h.mapped.blocks bn k (sym (same bn k) ∙ z);
    indirect = h.mapped.indirect;
  };
  distinct = λ i j k k' e. h.distinct i j k k' (sym (same i k) ∙ e ∙ same j k');
  apart = λ i k. (
    (λ e. (h.apart i k).0 (sym (same i k) ∙ e)),
    (λ big e. (h.apart i k).1 big (sym (same i k) ∙ e)),
  );
  numbers = h.numbers;
}

-- The disk after one block of the file is written from the kernel's memory.
abbrev pub written : (off n src : ℕ) → Mem → Inode → Fs → Fs
written off n src from ip fs =
    log_block (block_of (off / bsize) ip fs)
      (fill_block (block_of (off / bsize) ip fs) (off % bsize) (read_bytes n src from) fs)

module _ (s : ℕ) (ip : Inode) (fs : Fs) (h : IsOwner s ip fs) (off n src : ℕ) (from : Mem)
    (l : off < ip.size) where
  pub block_of-written :
      (bn : ℕ)
      → bn * bsize < ip.size
      → block_of bn ip (written off n src from ip fs) ≡ block_of bn ip fs
  block_of-written bn k =
      block_of-same bn (block_of (off / bsize) ip fs) ip fs (written off n src from ip fs) k
        (h.apart (off / bsize) (omega (arith, l))).1
        (λ c e. if-false (block_of (off / bsize) ip fs == c) _ _ (ground (arith, e)))

  same_block :
      (o : ℕ)
      → (o / bsize == off / bsize) ≡ true
      → (block_of (off / bsize) ip fs == block_of (o / bsize) ip fs) ≡ true
  same_block o e =
      ground
        (arith, ap (λ q. block_of q ip fs) {x = o / bsize} {y = off / bsize} (ground (arith, e)))

  other_block :
      (o : ℕ)
      → o < ip.size
      → (o / bsize == off / bsize) ≡ false
      → (block_of (off / bsize) ip fs == block_of (o / bsize) ip fs) ≡ false
  other_block o k e =
      ground (arith, e, h.distinct (off / bsize) (o / bsize) (omega (arith, l)) (omega (arith, k)))

  in_block :
      (o n : ℕ)
      → off % bsize + n ≤ bsize
      → (o / bsize == off / bsize) ≡ true
      → (if inside (o % bsize) (off % bsize) n
          then from (src + (o % bsize - off % bsize))
          else fs.block (block_of (off / bsize) ip fs) (o % bsize))
        ≡ (if inside o off n then from (src + (o - off)) else file_byte ip fs o)
  in_block o n w e = elim (Bool-cases (inside o off n)) [
    | inl q ↦
        if-true (inside (o % bsize) (off % bsize) n) _ _ (ground (arith, q, e))
        ∙ ap from (ground (arith, q, e))
        ∙ sym (if-true (inside o off n) _ _ q)
    | inr q ↦
        if-false (inside (o % bsize) (off % bsize) n) _ _ (ground (arith, q, e))
        ∙ ap (λ k. fs.block (block_of k ip fs) (o % bsize)) (ground (arith, e))
        ∙ sym (if-false (inside o off n) _ _ q)
  ]

  pub IsOwner-written : IsOwner s ip (written off n src from ip fs)
  IsOwner-written = IsOwner-same s ip fs (written off n src from ip fs) block_of-written h

  pub file_byte-written :
      (o : ℕ)
      → o < ip.size
      → off % bsize + n ≤ bsize
      → file_byte ip (written off n src from ip fs) o
        ≡ (if inside o off n then from (src + (o - off)) else file_byte ip fs o)
  file_byte-written o k w =
      ap (λ b. (written off n src from ip fs).block b (o % bsize))
        (block_of-written (o / bsize) (omega (arith, k)))
      ∙ (elim (Bool-cases (o / bsize == off / bsize)) [
        | inl e ↦
            ap (λ (m : Mem). m (o % bsize))
              (if-true (block_of (off / bsize) ip fs == block_of (o / bsize) ip fs) _ _
                (same_block o e))
            ∙ write_bytes-read_bytes n src (off % bsize) from
                (fs.block (block_of (off / bsize) ip fs)) (o % bsize)
            ∙ in_block o n w e
        | inr e ↦
            ap (λ (m : Mem). m (o % bsize))
              (if-false (block_of (off / bsize) ip fs == block_of (o / bsize) ip fs) _ _
                (other_block o k e))
            ∙ sym (if-false (inside o off n) _ _ (ground (arith, e, w)))
      ])
