-- ===== src/Fs/Balloc.antt =====
-- `balloc` and `bfree` of kernel/fs.c: what they do to the set of blocks in use.
use paddle_os.Prelude.{
  ltb, ◌==◌, if◌then◌else◌, Bool-cases, put, Outcome, ℕ, zero, suc, ◌+◌, ◌*◌, ◌/◌, ◌%◌, ◌≤◌, ◌<◌,
  ◌≡◌, refl, sym, transport, ap, ap₂, ◌∙◌, ◌≢◌, inl, inr, Bool, true, false, not, ◌&&◌, ◌||◌,
  Option, none, some, arith, ok, panic,
}
use paddle_os.Fs.Bitmap.{
  joined, in_use, IsFs, FirstFree, free, none_free, scan_bits-FirstFree, plus,
}
use paddle_os.Fs.{
  Fs, bits_per_block, bitmap_block, test_bit, set_bit, clear_bit, write_byte, bzero, scan_bits,
  take_block, balloc_from, balloc, bfree,
}
use paddle_os.Fs.Bits.{test_bit-set_bit, test_bit-clear_bit}

-- the bit `k` of the bitmap block `c`
abbrev bit : (ℕ → ℕ → ℕ) → (c k : ℕ) → Bool
bit block c k = test_bit (k % 8) (block c (k / 8))

abbrev with_byte : (ℕ → ℕ → ℕ) → (c i v : ℕ) → ℕ → ℕ → ℕ
with_byte block c i v = put block c (put (block c) i v)

byte-with_byte :
    (block : ℕ → ℕ → ℕ) (c i v d j : ℕ)
    → with_byte block c i v d j ≡ (if c == d && i == j then v else block d j)
byte-with_byte block c i v d j = ground arith

abbrev same_byte : (c k d m : ℕ) → Bool
same_byte c k d m = c == d && k / 8 == m / 8

same_index : (c k d m : ℕ) → same_byte c k d m ≡ true → (c == d && k == m) ≡ (k % 8 == m % 8)
same_index c k d m e = ground (arith, e)

other_index : (c k d m : ℕ) → same_byte c k d m ≡ false → (c == d && k == m) ≡ false
other_index c k d m e = ground (arith, e)

same_place :
    (block : ℕ → ℕ → ℕ) (c k d m : ℕ) → same_byte c k d m ≡ true → block c (k / 8) ≡ block d (m / 8)
same_place block c k d m e = ap₂ block (ground (arith, e)) (ground (arith, e))

bit-set :
    (block : ℕ → ℕ → ℕ) (c k d m : ℕ)
    → bit (with_byte block c (k / 8) (set_bit (k % 8) (block c (k / 8)))) d m
      ≡ ((c == d && k == m) || bit block d m)
bit-set block c k d m = elim (Bool-cases (same_byte c k d m)) [
  | inl e ↦
      ap (test_bit (m % 8)) (byte-with_byte block c (k / 8) _ d (m / 8))
      ∙ rw e (
          test_bit-set_bit (m % 8) (k % 8) (block c (k / 8))
          ∙ ap₂ (λ b v. b || test_bit (m % 8) v) (sym (same_index c k d m e))
              (same_place block c k d m e))
  | inr e ↦
      ap (test_bit (m % 8)) (byte-with_byte block c (k / 8) _ d (m / 8))
      ∙ rw e (ap (λ b. b || bit block d m) (sym (other_index c k d m e)))
]

bit-clear :
    (block : ℕ → ℕ → ℕ) (c k d m : ℕ)
    → bit (with_byte block c (k / 8) (clear_bit (k % 8) (block c (k / 8)))) d m
      ≡ (not (c == d && k == m) && bit block d m)
bit-clear block c k d m = elim (Bool-cases (same_byte c k d m)) [
  | inl e ↦
      ap (test_bit (m % 8)) (byte-with_byte block c (k / 8) _ d (m / 8))
      ∙ rw e (
          test_bit-clear_bit (m % 8) (k % 8) (block c (k / 8))
          ∙ ap₂ (λ b v. not b && test_bit (m % 8) v) (sym (same_index c k d m e))
              (same_place block c k d m e))
  | inr e ↦
      ap (test_bit (m % 8)) (byte-with_byte block c (k / 8) _ d (m / 8))
      ∙ rw e (ap (λ b. not b && bit block d m) (sym (other_index c k d m e)))
]

index-eq :
    (s b m : ℕ)
    → (b / bits_per_block + s == m / bits_per_block + s && b % bits_per_block == m % bits_per_block)
      ≡ (b == m)
index-eq s b m = ground arith

-- The file system `fs'` after a change of the bitmap at the block `b`, where `used` are in use.
pub record Changed (fs fs' : Fs) (b : ℕ) (used : ℕ → Bool) : Type 0 where
  pub usage : (m : ℕ) → m < fs.size → in_use fs' m ≡ used m
  pub logs : fs'.logged (bitmap_block fs b) ≡ true
  pub keeps_log : (c : ℕ) → fs.logged c ≡ true → fs'.logged c ≡ true
  pub same_super : (fs'.size ≡ fs.size) × (fs'.bmapstart ≡ fs.bmapstart)

Changed-clear :
    (b : ℕ) (fs : Fs)
    → Changed fs
        (write_byte
          (bitmap_block fs b)
          (b % bits_per_block / 8)
          (clear_bit
            (b % bits_per_block % 8)
            (fs.block (bitmap_block fs b) (b % bits_per_block / 8)))
          fs)
        b
        (λ m. not (b == m) && in_use fs m)
Changed-clear b fs = record {
  usage = λ m l.
      bit-clear fs.block (bitmap_block fs b) (b % bits_per_block) (bitmap_block fs m)
        (m % bits_per_block)
      ∙ ap (λ q. not q && in_use fs m) (index-eq fs.bmapstart b m);
  logs = ground arith;
  keeps_log = λ c l. ground (arith, l);
  same_super = (refl, refl);
}

-- `bfree` of a block in use frees exactly this block and logs the bitmap block, and writes no other
-- block; `bfree` of a free block panics.
pub bfree_lem :
    (b : ℕ) (fs : Fs)
    → (in_use fs b ≡ false → bfree b fs ≡ panic)
      × (in_use fs b ≡ true
          → (fs' : Fs) × (bfree b fs ≡ ok fs')
            × Changed fs fs' b (λ m. not (b == m) && in_use fs m)
            × ((c : ℕ) → bitmap_block fs b ≢ c → fs'.block c ≡ fs.block c))
unfolding bfree
bfree_lem b fs = (λ u. rw u refl, λ u. (_, rw u refl, Changed-clear b fs, λ c n. ground (arith, n)))

-- the marked bitmap before the block is zeroed
abbrev marked : ℕ → Fs → Fs
marked b fs =
    write_byte (bitmap_block fs b) (b % bits_per_block / 8)
      (set_bit (b % bits_per_block % 8) (fs.block (bitmap_block fs b) (b % bits_per_block / 8))) fs

put_ne : (f : ℕ → ℕ → ℕ) (i j : ℕ) (v : ℕ → ℕ) → i ≢ j → put f i v j ≡ f j
put_ne f i j v n = ground (arith, n)

Changed-taken :
    (b : ℕ) (fs : Fs)
    → ((m : ℕ) → m < fs.size → bitmap_block fs m ≢ b)
    → Changed fs (bzero b (marked b fs)) b (λ m. (b == m) || in_use fs m)
unfolding bzero
Changed-taken b fs n = record {
  usage = λ m l.
      ap {A = ℕ → ℕ} (λ f. test_bit (m % bits_per_block % 8) (f (m % bits_per_block / 8)))
        (put_ne (marked b fs).block b (bitmap_block fs m) (λ i. 0) (λ e. n m l (sym e)))
      ∙ bit-set fs.block (bitmap_block fs b) (b % bits_per_block) (bitmap_block fs m)
          (m % bits_per_block)
      ∙ ap (λ q. q || in_use fs m) (index-eq fs.bmapstart b m);
  logs = ground arith;
  keeps_log = λ c l. ground (arith, l);
  same_super = (refl, refl);
}

-- What `balloc` did: it took the first free block, or none is free and it answers 0.
pub data Balloc (fs : Fs) : Outcome (ℕ × Fs) → Type 0 where
  took :
      (n : ℕ) (fs' : Fs)
      → n < fs.size
      → in_use fs n ≡ false
      → ((m : ℕ) → m < n → in_use fs m ≡ true)
      → Changed fs fs' n (λ m. (n == m) || in_use fs m)
      → ((i : ℕ) → fs'.block n i ≡ 0)
      → ((c : ℕ) → n ≢ c → bitmap_block fs n ≢ c → fs'.block c ≡ fs.block c)
      → fs'.logged n ≡ true
      → Balloc fs (ok (n, fs'))
  all_used : ((m : ℕ) → m < fs.size → in_use fs m ≡ true) → Balloc fs (ok (0, fs))

take_block-marked :
    (b bi : ℕ) (fs : Fs)
    → b % bits_per_block ≡ 0
    → bi < bits_per_block
    → take_block b bi fs ≡ (b + bi, bzero (b + bi) (marked (b + bi) fs))
unfolding take_block
take_block-marked b bi fs z l =
    ap₂
      (λ q k. (
        b + bi,
        bzero (b + bi) (
            write_byte (q + fs.bmapstart) (k / 8)
              (set_bit (k % 8) (fs.block (q + fs.bmapstart) (k / 8))) fs),
      ))
      (omega (arith, z, l)) (omega (arith, z, l))

Balloc-take_block :
    (n : ℕ) (fs : Fs)
    → IsFs fs
    → n < fs.size
    → in_use fs n ≡ false
    → ((m : ℕ) → m < n → in_use fs m ≡ true)
    → Balloc fs (ok (n, bzero n (marked n fs)))
unfolding bzero
Balloc-take_block n fs h b u f =
    took n _ b u f
      (Changed-taken n fs
        (λ m l e. absurd (ground (arith, (h.bitmap_used m l).1, u, ap (in_use fs) e))))
      (λ i. ground arith) (λ c x y. ground (arith, x, y)) (ground arith)

plus_zero : (b : ℕ) → b + 0 ≡ b
plus_zero b = omega arith

Balloc-found :
    (o : Option ℕ) (b : ℕ) (fs : Fs) (rest : Outcome (ℕ × Fs))
    → IsFs fs
    → b % bits_per_block ≡ 0
    → ((m : ℕ) → m < b → m < fs.size → in_use fs m ≡ true)
    → FirstFree fs b (b + bits_per_block) (plus b o)
    → (((m : ℕ) → m < b + bits_per_block → m < fs.size → in_use fs m ≡ true) → Balloc fs rest)
    → Balloc fs (elim o [ none ↦ rest | some bi ↦ ok (take_block b bi fs) ])
Balloc-found none b fs rest h z f (none_free g) k =
    k (λ m a c. joined fs 0 b (b + bits_per_block) m (λ m p q r. f m q r) g (omega arith) a c)
Balloc-found (some bi) b fs rest h z f (free _ a l c u g) k =
    rw (take_block-marked b bi fs z (omega (arith, l))) (
      Balloc-take_block (b + bi) fs h c u (λ m q.
        joined fs 0 b (b + bi) m (λ m p q r. f m q r) (λ m p q r. g m p q) (omega arith) q
          (omega (arith, q, c))))

balloc_from-Balloc :
    (fuel b : ℕ) (fs : Fs)
    → IsFs fs
    → b % bits_per_block ≡ 0
    → b < fs.size + bits_per_block
    → fs.size + bits_per_block ≤ b + fuel * bits_per_block
    → ((m : ℕ) → m < b → m < fs.size → in_use fs m ≡ true)
    → Balloc fs (balloc_from fuel b fs)
unfolding balloc_from
balloc_from-Balloc zero b fs h z l e f = absurd (omega (arith, l, e))
balloc_from-Balloc (suc fuel) b fs h z l e f = elim (Bool-cases (ltb b fs.size)) [
  | inl q ↦ rw q (
      Balloc-found (scan_bits bits_per_block b 0 fs) b fs _ h z f
        (transport
          (λ i.
            FirstFree fs (plus_zero b i) (b + bits_per_block)
              (plus b (scan_bits bits_per_block b 0 fs)))
          (scan_bits-FirstFree bits_per_block b 0 fs z refl))
        (λ g.
          balloc_from-Balloc fuel (b + bits_per_block) fs h (omega (arith, z)) (ground (arith, q))
            (omega (arith, e)) g))
  | inr q ↦ rw q (all_used (λ m c. f m (ground (arith, q, c)) c))
]

-- While the bitmap's own blocks are in use, `balloc` takes the first free block, marks it in the
-- bitmap, zeroes it, logs both blocks and writes no other; it answers 0 where no block is free.
pub balloc_lem : (fs : Fs) → IsFs fs → Balloc fs (balloc fs)
unfolding balloc
balloc_lem fs h =
    balloc_from-Balloc (fs.size / bits_per_block + 2) 0 fs h refl (omega arith) (omega arith)
      (λ m a c. absurd (omega (arith, a)))
