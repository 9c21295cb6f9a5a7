-- ===== src/Fs/Bitmap.antt =====
-- `balloc` and `bfree` of kernel/fs.c against the set of blocks in use.
use paddle_os.Prelude.{
  ltb, Bool-cases, ℕ, zero, suc, ◌+◌, ◌/◌, ◌%◌, ◌≤◌, ◌<◌, ◌≡◌, ap₂, ◌∙◌, inl, inr, Bool, true,
  false, Option, none, some, arith,
}
use paddle_os.Fs.{Fs, bits_per_block, bitmap_block, test_bit, scan_bits}

-- The bitmap says that the block is in use.
abbrev pub in_use : Fs → ℕ → Bool
in_use fs n =
    test_bit (n % bits_per_block % 8) (fs.block (bitmap_block fs n) (n % bits_per_block / 8))

-- The bitmap's own blocks are in use.
pub record IsFs (fs : Fs) : Type 0 where
  pub bitmap_used :
      (n : ℕ) → n < fs.size → (bitmap_block fs n < fs.size) × (in_use fs (bitmap_block fs n) ≡ true)

-- what a search of the blocks from `lo` up to `hi` found
pub data FirstFree (fs : Fs) (lo hi : ℕ) : Option ℕ → Type 0 where
  free :
      (n : ℕ)
      → lo ≤ n
      → n < hi
      → n < fs.size
      → in_use fs n ≡ false
      → ((m : ℕ) → lo ≤ m → m < n → in_use fs m ≡ true)
      → FirstFree fs lo hi (some n)
  none_free :
      ((m : ℕ) → lo ≤ m → m < hi → m < fs.size → in_use fs m ≡ true) → FirstFree fs lo hi none

-- The bit that the inner loop tests is the block's.
scanned_bit :
    (fs : Fs) (b bi : ℕ)
    → b % bits_per_block ≡ 0
    → bi < bits_per_block
    → test_bit (bi % 8) (fs.block (bitmap_block fs b) (bi / 8)) ≡ in_use fs (b + bi)
scanned_bit fs b bi z l =
    ap₂ (λ k i. test_bit (k % 8) (fs.block (i + fs.bmapstart) (k / 8))) (omega (arith, z, l))
      (omega (arith, z, l))

abbrev pub plus : ℕ → Option ℕ → Option ℕ
plus b none = none
plus b (some bi) = some (b + bi)

below_next : (n m : ℕ) → n ≤ m → m < suc n → m ≡ n
below_next n m p q = omega (arith, p, q)

at_first : (fs : Fs) (n m : ℕ) → in_use fs n ≡ true → n ≤ m → m < suc n → in_use fs m ≡ true
at_first fs n m u p q = rw (below_next n m p q) u

pub joined :
    (fs : Fs) (lo mid hi m : ℕ)
    → ((m : ℕ) → lo ≤ m → m < mid → m < fs.size → in_use fs m ≡ true)
    → ((m : ℕ) → mid ≤ m → m < hi → m < fs.size → in_use fs m ≡ true)
    → lo ≤ m
    → m < hi
    → m < fs.size
    → in_use fs m ≡ true
joined fs lo mid hi m u f p q c = elim (Bool-cases (ltb m mid)) [
  | inl l ↦ u m p (ground (arith, l)) c
  | inr l ↦ f m (ground (arith, l)) q c
]

pub FirstFree-used :
    (fs : Fs) (lo mid hi : ℕ) (r : Option ℕ)
    → lo ≤ mid
    → ((m : ℕ) → lo ≤ m → m < mid → m < fs.size → in_use fs m ≡ true)
    → FirstFree fs mid hi r
    → FirstFree fs lo hi r
FirstFree-used fs lo mid hi r h u (free n a b c e f) =
    free n (omega (arith, h, a)) b c e
      (λ m p q. joined fs lo mid n m u (λ k x y w. f k x y) p q (omega (arith, q, c)))
FirstFree-used fs lo mid hi r h u (none_free f) =
    none_free (λ m p q c. joined fs lo mid hi m u f p q c)

pub scan_bits-FirstFree :
    (left b bi : ℕ) (fs : Fs)
    → b % bits_per_block ≡ 0
    → bi + left ≡ bits_per_block
    → FirstFree fs (b + bi) (b + bits_per_block) (plus b (scan_bits left b bi fs))
unfolding scan_bits
scan_bits-FirstFree zero b bi fs z e = none_free (λ m p q r. absurd (omega (arith, e, p, q)))
scan_bits-FirstFree (suc left) b bi fs z e = elim (Bool-cases (ltb (b + bi) fs.size)) [
  | inr o ↦ rw o (none_free (λ m p q r. absurd (ground (arith, o, p, r))))
  | inl o ↦ elim (Bool-cases (in_use fs (b + bi))) [
    | inl u ↦ rw o (
        rw (scanned_bit fs b bi z (omega (arith, e)) ∙ u) (
          FirstFree-used fs (b + bi) (b + suc bi) (b + bits_per_block) _ (omega arith)
            (λ m p q c. at_first fs (b + bi) m u p (omega (arith, q)))
            (scan_bits-FirstFree left b (suc bi) fs z (omega (arith, e)))))
    | inr u ↦ rw o (
        rw (scanned_bit fs b bi z (omega (arith, e)) ∙ u) (
          free (b + bi) (omega arith) (omega (arith, e)) (ground (arith, o)) u
            (λ m p q. absurd (omega (arith, p, q)))))
  ]
]
