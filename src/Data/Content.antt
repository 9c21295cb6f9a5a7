-- ===== src/Data/Content.antt =====
-- The bytes of a file whose blocks are all there, in kernel/fs.c.
use paddle_os.Prelude.{
  ltb, ◌==◌, if◌then◌else◌, Bool-cases, put, length, ℕ, zero, suc, ◌+◌, ◌-◌, ◌*◌, ◌/◌, ◌%◌, ◌≤◌,
  ◌<◌, ◌≡◌, refl, ap, ap₂, ◌∙◌, ◌≢◌, inl, inr, true, false, List, [], ◌∷◌, ◌++◌, arith, ok,
}
use paddle_os.Memory.{Mem}
use paddle_os.Memory.Words.{load_word}
use paddle_os.Fs.{Fs}
use paddle_os.Inode.{Inode, ndirect, nindirect, bmap, bmap_direct, bmap_entry}
use paddle_os.Data.{bsize, max_file_size, read_bytes, write_bytes}

-- the disk block of the block `bn` of the file
unfoldable pub block_of : (bn : ℕ) → Inode → Fs → ℕ
block_of bn ip fs =
    if ltb bn ndirect
    then ip.addrs bn
    else load_word 4 (fs.block (ip.addrs ndirect)) (4 * (bn - ndirect))

-- Each block up to the size is there, and so is the block of their numbers.
pub record IsMapped (ip : Inode) (fs : Fs) : Type 0 where
  pub size : ip.size ≤ max_file_size
  pub blocks : (bn : ℕ) → bn * bsize < ip.size → block_of bn ip fs ≢ 0
  pub indirect : ndirect * bsize < ip.size → ip.addrs ndirect ≢ 0

abbrev pub file_byte : Inode → Fs → ℕ → ℕ
file_byte ip fs o = fs.block (block_of (o / bsize) ip fs) (o % bsize)

unfoldable pub file_bytes : (n off : ℕ) → Inode → Fs → List ℕ
file_bytes zero off ip fs = []
file_bytes (suc n) off ip fs = file_byte ip fs off ∷ file_bytes n (suc off) ip fs

direct_there :
    (bn : ℕ) (ip : Inode) (fs : Fs)
    → ip.addrs bn ≢ 0
    → bmap_direct bn ip fs ≡ ok (ip.addrs bn, ip, fs)
unfolding bmap_direct
direct_there bn ip fs h = ground (arith, h)

entry_there :
    (c bn : ℕ) (ip : Inode) (fs : Fs)
    → load_word 4 (fs.block c) (4 * bn) ≢ 0
    → bmap_entry c bn ip fs ≡ ok (load_word 4 (fs.block c) (4 * bn), ip, fs)
unfolding bmap_entry
entry_there c bn ip fs h = ground (arith, h)

bn_small : (o : ℕ) → o < max_file_size → ltb (o / bsize - ndirect) nindirect ≡ true
bn_small o l = ground (arith, l)

nonzero : (b : ℕ) → b ≢ 0 → (b == 0) ≡ false
nonzero b h = ground (arith, h)

-- `bmap` does not read the size: the inode may be given any size `m` up to which the blocks are there.
pub bmap-grown :
    (o m : ℕ) (ip : Inode) (fs : Fs)
    → IsMapped (record ip { size = m }) fs
    → o < m
    → bmap (o / bsize) ip fs ≡ ok (block_of (o / bsize) (record ip { size = m }) fs, ip, fs)
unfolding bmap block_of
bmap-grown o m ip fs h l = elim (Bool-cases (ltb (o / bsize) ndirect)) [
  | inl e ↦
      rw e (direct_there (o / bsize) ip fs (λ q. h.blocks (o / bsize) (omega (arith, l)) (rw e q)))
  | inr e ↦
      let there = h.indirect (ground (arith, e, l)) in
      rw
        (
          e,
          bn_small o (omega (arith, l, h.size)),
          direct_there ndirect ip fs there,
          nonzero (ip.addrs ndirect) there,
        )
        (entry_there (ip.addrs ndirect) (o / bsize - ndirect) ip fs
          (λ q. h.blocks (o / bsize) (omega (arith, l)) (rw e q)))
]

pub bmap-block_of :
    (o : ℕ) (ip : Inode) (fs : Fs)
    → IsMapped ip fs
    → o < ip.size
    → bmap (o / bsize) ip fs ≡ ok (block_of (o / bsize) ip fs, ip, fs)
bmap-block_of o ip fs h l = bmap-grown o ip.size ip fs h l

next_byte :
    (n off : ℕ) (ip : Inode) (fs : Fs)
    → off % bsize + suc n ≤ bsize
    → read_bytes n (suc (off % bsize)) (fs.block (block_of (off / bsize) ip fs))
      ≡ read_bytes n (suc off % bsize) (fs.block (block_of (suc off / bsize) ip fs))
unfolding read_bytes
next_byte zero off ip fs h = refl
next_byte (suc n) off ip fs h =
    ap₂ (λ a q. read_bytes (suc n) a (fs.block (block_of q ip fs))) (omega (arith, h))
      (omega (arith, h))

pub read_bytes-file_bytes :
    (n off : ℕ) (ip : Inode) (fs : Fs)
    → off % bsize + n ≤ bsize
    → read_bytes n (off % bsize) (fs.block (block_of (off / bsize) ip fs)) ≡ file_bytes n off ip fs
unfolding read_bytes file_bytes
read_bytes-file_bytes zero off ip fs h = refl
read_bytes-file_bytes (suc n) off ip fs h =
    ap (λ l. file_byte ip fs off ∷ l)
      (next_byte n off ip fs h ∙ read_bytes-file_bytes n (suc off) ip fs (omega (arith, h)))

pub file_bytes-append :
    (j k off : ℕ) (ip : Inode) (fs : Fs)
    → file_bytes (j + k) off ip fs ≡ file_bytes j off ip fs ++ file_bytes k (off + j) ip fs
unfolding file_bytes
file_bytes-append zero k off ip fs =
    ap (λ n. file_bytes n off ip fs) {y = k} (omega arith)
    ∙ ap (λ o. file_bytes k o ip fs) (omega arith)
file_bytes-append (suc j) k off ip fs =
    ap (λ n. file_bytes n off ip fs) {y = suc (j + k)} (omega arith)
    ∙ ap (λ l. file_byte ip fs off ∷ l)
        (file_bytes-append j k (suc off) ip fs
          ∙ ap (λ o. file_bytes j (suc off) ip fs ++ file_bytes k o ip fs) (omega arith))

pub length-file_bytes : (n off : ℕ) (ip : Inode) (fs : Fs) → length (file_bytes n off ip fs) ≡ n
unfolding file_bytes
length-file_bytes zero off ip fs = refl
length-file_bytes (suc n) off ip fs = ap suc (length-file_bytes n (suc off) ip fs)

pub write_bytes-append :
    (xs ys : List ℕ) (a : ℕ) (m : Mem)
    → write_bytes (xs ++ ys) a m ≡ write_bytes ys (a + length xs) (write_bytes xs a m)
unfolding write_bytes
write_bytes-append [] ys a m = ap (λ i. write_bytes ys i m) (omega arith)
write_bytes-append (x ∷ xs) ys a m =
    write_bytes-append xs ys (suc a) (put m a x)
    ∙ ap (λ i. write_bytes ys i (write_bytes xs (suc a) (put m a x))) (omega arith)
