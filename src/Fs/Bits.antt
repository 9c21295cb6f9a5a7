-- ===== src/Fs/Bits.antt =====
-- The bits of a byte.
use paddle_os.Prelude.{
  ◌==◌, ℕ, zero, suc, ◌+◌, ◌*◌, ◌/◌, ◌%◌, ◌≡◌, sym, ap, ◌∙◌, not, ◌&&◌, ◌||◌, arith,
}
use paddle_os.Fs.{test_bit, set_bit, clear_bit}

half : (x y : ℕ) → (x * 2 + y % 2) / 2 ≡ x
half x y = omega arith

half_set : (x : ℕ) → (x / 2 * 2 + 1) / 2 ≡ x / 2
half_set x = omega arith

half_clear : (x : ℕ) → x / 2 * 2 / 2 ≡ x / 2
half_clear x = omega arith

suc_== : (j k : ℕ) → (suc k == suc j) ≡ (k == j)
suc_== j k = ground arith

pub test_bit-set_bit : (j k byte : ℕ) → test_bit j (set_bit k byte) ≡ ((k == j) || test_bit j byte)
unfolding test_bit set_bit
test_bit-set_bit zero zero byte = ground arith
test_bit-set_bit zero (suc k) byte = ground arith
test_bit-set_bit (suc j) zero byte = ap (test_bit j) (half_set byte) ∙ ground arith
test_bit-set_bit (suc j) (suc k) byte =
    ap (test_bit j) (half (set_bit k (byte / 2)) byte)
    ∙ test_bit-set_bit j k (byte / 2)
    ∙ ap (λ b. b || test_bit j (byte / 2)) (sym (suc_== j k))

pub test_bit-clear_bit :
    (j k byte : ℕ) → test_bit j (clear_bit k byte) ≡ (not (k == j) && test_bit j byte)
unfolding test_bit clear_bit
test_bit-clear_bit zero zero byte = ground arith
test_bit-clear_bit zero (suc k) byte = ground arith
test_bit-clear_bit (suc j) zero byte = ap (test_bit j) (half_clear byte) ∙ ground arith
test_bit-clear_bit (suc j) (suc k) byte =
    ap (test_bit j) (half (clear_bit k (byte / 2)) byte)
    ∙ test_bit-clear_bit j k (byte / 2)
    ∙ ap (λ b. not b && test_bit j (byte / 2)) (sym (suc_== j k))
