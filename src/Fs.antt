-- ===== src/Fs.antt =====
-- kernel/fs.c: the blocks of the file system. `bread` and `brelse` give the contents of a block as
-- the buffer cache has it, and `log_write` marks the block as one that the transaction writes, so
-- the state is the contents of every block and the set of blocks that are logged. There is one
-- device. The fields of the super block stand beside them.
-- `m = 1 << k` is the bit `k` of a byte, and the masks `& m`, `|= m` and `&= ~m` are `test_bit`,
-- `set_bit` and `clear_bit`.
pub mod Bits
pub mod Bitmap
pub mod Balloc
mod Tests
use paddle_os.Prelude.{
  ltb, ◌==◌, if◌then◌else◌, put, Outcome, ℕ, zero, suc, ◌+◌, ◌*◌, ◌/◌, ◌%◌, Bool, true, Option,
  none, some, ok, panic, out_of_fuel,
}

pub record Fs : Type 0 where
  pub block : ℕ → ℕ → ℕ  -- block, byte
  pub logged : ℕ → Bool
  pub size : ℕ
  pub bmapstart : ℕ

-- `BPB` and `BBLOCK`
abbrev pub bits_per_block : ℕ
bits_per_block = 8192

abbrev pub bitmap_block : Fs → ℕ → ℕ
bitmap_block fs b = b / bits_per_block + fs.bmapstart

unfoldable pub test_bit : (k byte : ℕ) → Bool
test_bit zero byte = byte % 2 == 1
test_bit (suc k) byte = test_bit k (byte / 2)

unfoldable pub set_bit : (k byte : ℕ) → ℕ
set_bit zero byte = byte / 2 * 2 + 1
set_bit (suc k) byte = set_bit k (byte / 2) * 2 + byte % 2

unfoldable pub clear_bit : (k byte : ℕ) → ℕ
clear_bit zero byte = byte / 2 * 2
clear_bit (suc k) byte = clear_bit k (byte / 2) * 2 + byte % 2

-- `b->data[i] = v; log_write(b);`
abbrev pub write_byte : (b i v : ℕ) → Fs → Fs
write_byte b i v fs = record fs {
  block = put fs.block b (put (fs.block b) i v);
  logged = put fs.logged b true;
}

unfoldable pub bzero : ℕ → Fs → Fs
bzero b fs = record fs { block = put fs.block b (λ i. 0); logged = put fs.logged b true }

-- the inner loop of `balloc`, for the bitmap block of the blocks from `b` on
unfoldable pub scan_bits : (left b bi : ℕ) → Fs → Option ℕ
scan_bits zero b bi fs = none
scan_bits (suc left) b bi fs =
    let rest = scan_bits left b (suc bi) fs in
    if ltb (b + bi) fs.size
    then (if test_bit (bi % 8) (fs.block (bitmap_block fs b) (bi / 8)) then rest else some bi)
    else none

-- the block `b + bi` is marked and zeroed
unfoldable pub take_block : (b bi : ℕ) → Fs → ℕ × Fs
take_block b bi fs =
    let bp = bitmap_block fs b in
    let fs' = write_byte bp (bi / 8) (set_bit (bi % 8) (fs.block bp (bi / 8))) fs in
    (b + bi, bzero (b + bi) fs')

-- the outer loop
unfoldable pub balloc_from : (fuel b : ℕ) → Fs → Outcome (ℕ × Fs)
balloc_from zero b fs = out_of_fuel
balloc_from (suc fuel) b fs =
    let rest = balloc_from fuel (b + bits_per_block) fs in
    if ltb b fs.size
    then elim (scan_bits bits_per_block b 0 fs) [ none ↦ rest | some bi ↦ ok (take_block b bi fs) ]
    else ok (0, fs)

-- One round for each bitmap block, and one to stop.
unfoldable pub balloc : Fs → Outcome (ℕ × Fs)
balloc fs = balloc_from (fs.size / bits_per_block + 2) 0 fs

unfoldable pub bfree : ℕ → Fs → Outcome Fs
bfree b fs =
    let bp = bitmap_block fs b in
    let bi = b % bits_per_block in
    let byte = fs.block bp (bi / 8) in
    if test_bit (bi % 8) byte
    then ok (write_byte bp (bi / 8) (clear_bit (bi % 8) byte) fs)
    else panic
