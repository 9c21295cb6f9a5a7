-- ===== src/Fs/Tests.antt =====
-- The block allocator of kernel/fs.c on a disk of 16 blocks, the bitmap in block 2.
use paddle_os.Prelude.{
  ◌==◌, if◌then◌else◌, ℕ, ◌<◌, ◌≡◌, ap, ◌≢◌, true, false, not, ◌&&◌, arith, ok, panic,
}
use paddle_os.Fs.{Fs, test_bit, bitmap_block, balloc, bfree}
use paddle_os.Fs.Bitmap.{in_use, IsFs}
use paddle_os.Fs.Balloc.{Changed, bfree_lem, Balloc, balloc_lem}

-- Blocks 0 to 2 are in use.
abbrev small : Fs
small = record {
  block = λ b i. if b == 2 && i == 0 then 7 else 0;
  logged = λ b. false;
  size = 16;
  bmapstart = 2;
}

bitmap_in_use : (n : ℕ) → n < 16 → in_use small (bitmap_block small n) ≡ true
unfolding test_bit
bitmap_in_use n l = ap (in_use small) {x = bitmap_block small n} {y = 2} (omega (arith, l))

small-IsFs : IsFs small
unfolding test_bit
small-IsFs = record { bitmap_used = λ n l. (ground (arith, l), bitmap_in_use n l) }

balloc_lem_example : Balloc small (balloc small)
balloc_lem_example = balloc_lem small small-IsFs

bfree_lem_example :
    (in_use small 2 ≡ false → bfree 2 small ≡ panic)
    × (in_use small 2 ≡ true
        → (fs' : Fs) × (bfree 2 small ≡ ok fs')
          × Changed small fs' 2 (λ m. not (2 == m) && in_use small m)
          × ((c : ℕ) → bitmap_block small 2 ≢ c → fs'.block c ≡ small.block c))
bfree_lem_example = bfree_lem 2 small
