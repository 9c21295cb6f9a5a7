-- ===== src/Inode/Map.antt =====
-- `bmap` of kernel/fs.c: the disk block of a block of a file.
use paddle_os.Prelude.{
  ltb, ◌==◌, if◌then◌else◌, Bool-cases, put, Outcome, ◌>>=◌, ℕ, ◌+◌, ◌-◌, ◌*◌, ◌^◌, ◌≤◌, ◌<◌, ◌≡◌,
  refl, sym, ap, ◌∙◌, ◌≢◌, inl, inr, true, false, ◌||◌, arith, ok,
}
use paddle_os.Memory.Words.{load_word, store_word, load_word-store_word}
use paddle_os.Fs.{Fs, balloc, bitmap_block}
use paddle_os.Fs.Bitmap.{in_use, IsFs}
use paddle_os.Fs.Balloc.{Changed, Balloc, took, all_used, balloc_lem}
use paddle_os.Inode.{Inode, ndirect, nindirect, bmap_direct, bmap_entry, bmap}

-- A file system whose block 0, the boot block, and whose bitmap are in use, and whose block numbers
-- fit the entries of an inode.
pub record IsDisk (fs : Fs) : Type 0 where
  pub bitmap : IsFs fs
  pub boot : in_use fs 0 ≡ true
  pub size : (0 < fs.size) × (fs.size < 256 ^ 4)

abbrev pub Full : Fs → Type 0
Full fs = (m : ℕ) → m < fs.size → in_use fs m ≡ true

-- What `again`, run once, returned: a block that a second run returns too, with nothing
-- changed, or 0 on a disk without a free block.
pub data Bmap (again : Inode → Fs → Outcome (ℕ × Inode × Fs))
    : Outcome (ℕ × Inode × Fs) → Type 0 where
  mapped :
      (b : ℕ) (ip : Inode) (fs : Fs)
      → b ≢ 0
      → again ip fs ≡ ok (b, ip, fs)
      → Bmap again (ok (b, ip, fs))
  no_space : (ip : Inode) (fs : Fs) → Full fs → Bmap again (ok (0, ip, fs))

-- what `bmap_direct` returned
data Direct (bn : ℕ) : Outcome (ℕ × Inode × Fs) → Type 0 where
  direct :
      (b : ℕ) (ip : Inode) (fs : Fs)
      → b ≢ 0
      → IsDisk fs
      → ip.addrs bn ≡ b
      → Direct bn (ok (b, ip, fs))
  direct_full : (ip : Inode) (fs : Fs) → Full fs → Direct bn (ok (0, ip, fs))

-- what `bmap_entry` returned
data Entry (c bn : ℕ) (ip : Inode) : Outcome (ℕ × Inode × Fs) → Type 0 where
  entry :
      (b : ℕ) (fs : Fs)
      → b ≢ 0
      → load_word 4 (fs.block c) (4 * bn) ≡ b
      → Entry c bn ip (ok (b, ip, fs))
  entry_full : (fs : Fs) → Full fs → Entry c bn ip (ok (0, ip, fs))

in_use-Changed :
    (fs fs' : Fs) (n m : ℕ)
    → Changed fs fs' n (λ m. (n == m) || in_use fs m)
    → m < fs.size
    → in_use fs m ≡ true
    → in_use fs' m ≡ true
in_use-Changed fs fs' n m c l u = c.usage m l ∙ ground (arith, u)

IsDisk-Changed :
    (fs fs' : Fs) (n : ℕ) → IsDisk fs → Changed fs fs' n (λ m. (n == m) || in_use fs m) → IsDisk fs'
IsDisk-Changed fs fs' n d c = record {
  bitmap = record {
    bitmap_used = λ m l.
        let u = d.bitmap.bitmap_used m (omega (arith, l, c.same_super.0)) in
        (
          omega (arith, u.0, c.same_super.0, c.same_super.1),
          ap (in_use fs') (omega (arith, c.same_super.1))
              ∙ in_use-Changed fs fs' n (bitmap_block fs m) c u.0 u.1,
        );
  };
  boot = in_use-Changed fs fs' n 0 c d.size.0 d.boot;
  size = (omega (arith, c.same_super.0, d.size.0), omega (arith, c.same_super.0, d.size.1));
}

nonzero : (b : ℕ) → b ≢ 0 → (b == 0) ≡ false
nonzero b h = ground (arith, h)

-- a block that was free is not the boot block
allocated-nonzero : (fs : Fs) (n : ℕ) → IsDisk fs → in_use fs n ≡ false → n ≢ 0
allocated-nonzero fs n d f z = ground (arith, sym d.boot ∙ ap (in_use fs) (sym z) ∙ f)

Direct-allocated :
    (bn : ℕ) (ip : Inode) (fs : Fs) (r : Outcome (ℕ × Fs))
    → IsDisk fs
    → Balloc fs r
    → Direct bn (
        r >>= λ r.
        ok (r.0, (if r.0 == 0 then ip else record ip { addrs = put ip.addrs bn r.0 }), r.1))
Direct-allocated bn ip fs r d (took n fs' l f before c z o g) =
    rw (nonzero n (allocated-nonzero fs n d f)) (
      direct n (record ip { addrs = put ip.addrs bn n }) fs' (allocated-nonzero fs n d f)
        (IsDisk-Changed fs fs' n d c) (ground arith))
Direct-allocated bn ip fs r d (all_used u) = direct_full ip fs u

bmap_direct-Direct : (bn : ℕ) (ip : Inode) (fs : Fs) → IsDisk fs → Direct bn (bmap_direct bn ip fs)
unfolding bmap_direct
bmap_direct-Direct bn ip fs d = elim (Bool-cases (ip.addrs bn == 0)) [
  | inl e ↦ rw e (Direct-allocated bn ip fs (balloc fs) d (balloc_lem fs d.bitmap))
  | inr e ↦ rw e (direct (ip.addrs bn) ip fs (ground (arith, e)) d refl)
]

bmap_direct-again :
    (bn b : ℕ) (ip : Inode) (fs : Fs)
    → b ≢ 0
    → ip.addrs bn ≡ b
    → bmap_direct bn ip fs ≡ ok (b, ip, fs)
unfolding bmap_direct
bmap_direct-again bn b ip fs z e = rw (e, nonzero b z) refl

Entry-allocated :
    (c bn : ℕ) (ip : Inode) (fs : Fs) (r : Outcome (ℕ × Fs))
    → IsDisk fs
    → Balloc fs r
    → Entry c bn ip (
        r >>= λ r. ok (
          r.0,
          ip,
          (if r.0 == 0 then r.1 else record r.1 {
            block = put r.1.block c (store_word 4 (r.1.block c) (4 * bn) r.0);
            logged = put r.1.logged c true;
          }),
        ))
Entry-allocated c bn ip fs r d (took n fs' l f before g z o h) =
    rw (nonzero n (allocated-nonzero fs n d f)) (
      entry n
        (record fs' {
          block = put fs'.block c (store_word 4 (fs'.block c) (4 * bn) n);
          logged = put fs'.logged c true;
        })
        (allocated-nonzero fs n d f)
        (ground arith
          ∙ load_word-store_word 4 (fs'.block c) (4 * bn) n (omega (arith, l, d.size.1))))
Entry-allocated c bn ip fs r d (all_used u) = entry_full fs u

bmap_entry-Entry :
    (c bn : ℕ) (ip : Inode) (fs : Fs) → IsDisk fs → Entry c bn ip (bmap_entry c bn ip fs)
unfolding bmap_entry
bmap_entry-Entry c bn ip fs d = elim (Bool-cases (load_word 4 (fs.block c) (4 * bn) == 0)) [
  | inl e ↦ rw e (Entry-allocated c bn ip fs (balloc fs) d (balloc_lem fs d.bitmap))
  | inr e ↦ rw e (entry (load_word 4 (fs.block c) (4 * bn)) fs (ground (arith, e)) refl)
]

bmap_entry-again :
    (c bn b : ℕ) (ip : Inode) (fs : Fs)
    → b ≢ 0
    → load_word 4 (fs.block c) (4 * bn) ≡ b
    → bmap_entry c bn ip fs ≡ ok (b, ip, fs)
unfolding bmap_entry
bmap_entry-again c bn b ip fs z e = rw (e, nonzero b z) refl

bmap-small : (bn : ℕ) (ip : Inode) (fs : Fs) → bn < ndirect → bmap bn ip fs ≡ bmap_direct bn ip fs
unfolding bmap
bmap-small bn ip fs l = ground (arith, l)

bmap-large :
    (bn : ℕ) (ip : Inode) (fs : Fs)
    → ndirect ≤ bn
    → bn < ndirect + nindirect
    → bmap bn ip fs ≡ (
        bmap_direct ndirect ip fs >>= λ r.
        if r.0 == 0 then ok r else bmap_entry r.0 (bn - ndirect) r.1 r.2)
unfolding bmap
bmap-large bn ip fs l m = ground (arith, l, m)

small-Bmap : (bn : ℕ) (r : Outcome (ℕ × Inode × Fs)) → bn < ndirect → Direct bn r → Bmap (bmap bn) r
small-Bmap bn r l (direct b ip fs z d e) =
    mapped b ip fs z (bmap-small bn ip fs l ∙ bmap_direct-again bn b ip fs z e)
small-Bmap bn r l (direct_full ip fs u) = no_space ip fs u

Entry-Bmap :
    (bn c : ℕ) (ip : Inode) (r : Outcome (ℕ × Inode × Fs))
    → ndirect ≤ bn
    → bn < ndirect + nindirect
    → c ≢ 0
    → ip.addrs ndirect ≡ c
    → Entry c (bn - ndirect) ip r
    → Bmap (bmap bn) r
Entry-Bmap bn c ip r l m z e (entry b fs y w) = mapped b ip fs y (
    bmap-large bn ip fs l m
    ∙ rw (bmap_direct-again ndirect c ip fs z e, nonzero c z)
        (bmap_entry-again c (bn - ndirect) b ip fs y w))
Entry-Bmap bn c ip r l m z e (entry_full fs u) = no_space ip fs u

large-Bmap :
    (bn : ℕ) (r : Outcome (ℕ × Inode × Fs))
    → ndirect ≤ bn
    → bn < ndirect + nindirect
    → Direct ndirect r
    → Bmap (bmap bn) (r >>= λ r. if r.0 == 0 then ok r else bmap_entry r.0 (bn - ndirect) r.1 r.2)
large-Bmap bn r l m (direct c ip fs z d e) = rw (nonzero c z) (
    Entry-Bmap bn c ip (bmap_entry c (bn - ndirect) ip fs) l m z e
      (bmap_entry-Entry c (bn - ndirect) ip fs d))
large-Bmap bn r l m (direct_full ip fs u) = no_space ip fs u

-- For a block number below 268, `bmap` returns a block that a second call returns too, without
-- a change of the inode or of the disk; it answers 0 only on a disk without a free block. The
-- boot block and the bitmap must be in use and the block numbers fit 32 bits.
pub bmap_lem :
    (bn : ℕ) (ip : Inode) (fs : Fs)
    → bn < ndirect + nindirect
    → IsDisk fs
    → Bmap (bmap bn) (bmap bn ip fs)
bmap_lem bn ip fs m d = elim (Bool-cases (ltb bn ndirect)) [
  | inr q ↦ rw (bmap-large bn ip fs (ground (arith, q)) m) (
      large-Bmap bn (bmap_direct ndirect ip fs) (ground (arith, q)) m
        (bmap_direct-Direct ndirect ip fs d))
  | inl q ↦
      rw (bmap-small bn ip fs (ground (arith, q)))
        (small-Bmap bn (bmap_direct bn ip fs) (ground (arith, q)) (bmap_direct-Direct bn ip fs d))
]
