-- ===== src/Inode/Update.antt =====
-- `iupdate` and `ilock` of kernel/fs.c: an inode written to the disk and read again.
use paddle_os.Prelude.{
  ◌==◌, Bool-cases, if-false, ℕ, ◌+◌, ◌*◌, ◌≤◌, ◌<◌, ◌≡◌, refl, sym, transport, ap, ◌∙◌, ◌≢◌, ◌⊎◌,
  inl, inr, false, arith, ok,
}
use paddle_os.Memory.Words.{load_word, load_word-same}
use paddle_os.Fs.{Fs}
use paddle_os.Inode.{
  Inode, ndirect, inode_block, inode_offset, store_fields, addr_fields, fields, iupdate, read_inode,
  ilock,
}
use paddle_os.Inode.Layout.{
  width, Fits, Holds, store_fields-outside, Holds-store_fields, Holds-addr_fields,
}

-- The fields that the disk has are equal.
pub record SameFields (p q : Inode) : Type 0 where
  pub kind : p.kind ≡ q.kind
  pub major : p.major ≡ q.major
  pub minor : p.minor ≡ q.minor
  pub nlink : p.nlink ≡ q.nlink
  pub size : p.size ≡ q.size
  pub addrs : (i : ℕ) → i < ndirect + 1 → p.addrs i ≡ q.addrs i

width-fields : (ip : Inode) → width (fields ip) ≡ 64
unfolding width addr_fields
width-fields ip = refl

SameFields-read_inode :
    (s : ℕ) (ip q : Inode) (fs : Fs)
    → q.inum ≡ ip.inum
    → Holds (fields ip) (inode_offset ip.inum) (fs.block (inode_block s ip.inum))
    → SameFields (read_inode s fs q) ip
unfolding read_inode
SameFields-read_inode s ip q fs e h = rw e (record {
  kind = h.0;
  major = h.1.0;
  minor = ap (load_word 2 (fs.block (inode_block s ip.inum))) (omega arith) ∙ h.1.1.0;
  nlink = ap (load_word 2 (fs.block (inode_block s ip.inum))) (omega arith) ∙ h.1.1.1.0;
  size = ap (load_word 4 (fs.block (inode_block s ip.inum))) (omega arith) ∙ h.1.1.1.1.0;
  addrs = λ i l.
      ap (load_word 4 (fs.block (inode_block s ip.inum))) (omega arith)
      ∙ Holds-addr_fields 13 0 ip.addrs (inode_offset ip.inum + 2 + 2 + 2 + 2 + 4) i
          (fs.block (inode_block s ip.inum)) h.1.1.1.1.1 (omega arith) (omega (arith, l));
})

updated_block :
    (s : ℕ) (ip : Inode) (fs : Fs)
    → (iupdate s ip fs).block (inode_block s ip.inum)
      ≡ store_fields (fields ip) (inode_offset ip.inum) (fs.block (inode_block s ip.inum))
unfolding iupdate
updated_block s ip fs = ground arith

same_block :
    (s k b : ℕ) (ip : Inode) (fs : Fs)
    → inode_block s ip.inum ≡ k
    → (iupdate s ip fs).block k b ≡ store_fields (fields ip) (inode_offset ip.inum) (fs.block k) b
same_block s k b ip fs e = ground (arith, e, ap (λ m. m b) (updated_block s ip fs))

-- a byte outside the fields of the inode
other_byte :
    (s k b : ℕ) (ip : Inode) (fs : Fs)
    → (k ≢ inode_block s ip.inum) ⊎ (b < inode_offset ip.inum) ⊎ (inode_offset ip.inum + 64 ≤ b)
    → (iupdate s ip fs).block k b ≡ fs.block k b
unfolding iupdate width addr_fields
other_byte s k b ip fs (inl ne) = ground (arith, ne)
other_byte s k b ip fs (inr h) = elim (Bool-cases (inode_block s ip.inum == k)) [
  | inl e ↦
      same_block s k b ip fs (ground (arith, e))
      ∙ store_fields-outside (fields ip) (inode_offset ip.inum) (fs.block k) b h
  | inr e ↦ ground (arith, e)
]

-- where two inodes are
apart :
    (s n k i : ℕ)
    → k ≢ n
    → i < 64
    → (inode_block s n ≢ inode_block s k)
      ⊎ (inode_offset n + i < inode_offset k)
      ⊎ (inode_offset k + 64 ≤ inode_offset n + i)
apart s n k i ne l = ground (arith, ne, l)

-- the bytes of another inode
other_inode :
    (s n i : ℕ) (ip : Inode) (fs : Fs)
    → ip.inum ≢ n
    → i < 64
    → (iupdate s ip fs).block (inode_block s n) (inode_offset n + i)
      ≡ fs.block (inode_block s n) (inode_offset n + i)
other_inode s n i ip fs ne l =
    other_byte s (inode_block s n) (inode_offset n + i) ip fs (apart s n ip.inum i ne l)

other_word :
    (s n w i a : ℕ) (ip : Inode) (fs : Fs)
    → ip.inum ≢ n
    → i + w ≤ 64
    → a ≡ inode_offset n + i
    → load_word w ((iupdate s ip fs).block (inode_block s n)) a
      ≡ load_word w (fs.block (inode_block s n)) a
other_word s n w i a ip fs ne l e =
    load_word-same w (fs.block (inode_block s n)) ((iupdate s ip fs).block (inode_block s n)) a
      (λ j k.
        ap ((iupdate s ip fs).block (inode_block s n)) (omega (arith, e))
        ∙ other_inode s n (i + j) ip fs ne (omega (arith, l, k))
        ∙ ap (fs.block (inode_block s n)) (omega (arith, e)))

SameFields-other :
    (s : ℕ) (ip o : Inode) (fs : Fs)
    → ip.inum ≢ o.inum
    → SameFields (read_inode s (iupdate s ip fs) o) (read_inode s fs o)
unfolding read_inode
SameFields-other s ip o fs ne = record {
  kind = other_word s o.inum 2 0 (inode_offset o.inum) ip fs ne (omega arith) (omega arith);
  major = other_word s o.inum 2 2 (inode_offset o.inum + 2) ip fs ne (omega arith) (omega arith);
  minor = other_word s o.inum 2 4 (inode_offset o.inum + 4) ip fs ne (omega arith) (omega arith);
  nlink = other_word s o.inum 2 6 (inode_offset o.inum + 6) ip fs ne (omega arith) (omega arith);
  size = other_word s o.inum 4 8 (inode_offset o.inum + 8) ip fs ne (omega arith) (omega arith);
  addrs = λ i l.
      other_word s o.inum 4 (12 + 4 * i) (inode_offset o.inum + 12 + 4 * i) ip fs ne
        (omega (arith, l)) (omega arith);
}

SameFields-iupdate :
    (s : ℕ) (ip q : Inode) (fs : Fs)
    → Fits (fields ip)
    → q.inum ≡ ip.inum
    → SameFields (read_inode s (iupdate s ip fs) q) ip
SameFields-iupdate s ip q fs f e = SameFields-read_inode s ip q (iupdate s ip fs) e (
    transport (λ i. Holds (fields ip) (inode_offset ip.inum) (sym (updated_block s ip fs) i))
      (Holds-store_fields (fields ip) (inode_offset ip.inum) (fs.block (inode_block s ip.inum)) f))

ilock-invalid :
    (s : ℕ) (q : Inode) (fs : Fs)
    → 0 < q.ref
    → q.valid ≡ false
    → (read_inode s fs q).kind ≢ 0
    → ilock s fs q ≡ ok (read_inode s fs q)
unfolding ilock
ilock-invalid s q fs r v k = ground (arith, r, v, k)

-- An inode that `iupdate` has written to the disk is read back by `ilock` with the same fields,
-- when they fit the disk's fields and the type is not 0; the fields of every other inode, in
-- the same block or not, are read as before.
pub iupdate_lem :
    (s : ℕ) (ip q o : Inode) (fs : Fs)
    → Fits (fields ip)
    → ip.kind ≢ 0
    → q.inum ≡ ip.inum
    → 0 < q.ref
    → q.valid ≡ false
    → ip.inum ≢ o.inum
    → (ilock s (iupdate s ip fs) q ≡ ok (read_inode s (iupdate s ip fs) q))
      × SameFields (read_inode s (iupdate s ip fs) q) ip
      × SameFields (read_inode s (iupdate s ip fs) o) (read_inode s fs o)
iupdate_lem s ip q o fs f k e r v ne = (
  ilock-invalid s q (iupdate s ip fs) r v (λ z. k (sym same.kind ∙ z)),
  same,
  SameFields-other s ip o fs ne,
)
  where
    same : SameFields (read_inode s (iupdate s ip fs) q) ip
    same = SameFields-iupdate s ip q fs f e

-- a block that has no part of the inode
pub iupdate-other_block :
    (s k : ℕ) (ip : Inode) (fs : Fs)
    → inode_block s ip.inum ≢ k
    → (iupdate s ip fs).block k ≡ fs.block k
unfolding iupdate
iupdate-other_block s k ip fs h = if-false (inode_block s ip.inum == k) _ _ (ground (arith, h))
