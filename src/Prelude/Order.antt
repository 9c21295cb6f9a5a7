-- ===== src/Prelude/Order.antt =====
-- The order of the native numbers: properties of an interval.
use Prim.Native.Nat.{ℕ, suc, ◌≤◌}
use mathlib.Core.Path.{◌≡◌, transport}
use mathlib.Core.Logic.{◌⊎◌, inl, inr}
use native.Mathlib.Omega.{arith}

eq_or_lt : (i j : ℕ) → i ≤ j → (i ≡ j) ⊎ (suc i ≤ j)
eq_or_lt i j h = ground (arith, h)

-- A property of `i` and of what is above it is one of what is not below it.
pub step_over : (P : ℕ → Type 0) (i j : ℕ) → P i → (suc i ≤ j → P j) → i ≤ j → P j
step_over P i j here later h = elim (eq_or_lt i j h) [
  | inl e ↦ transport (λ k. P (e k)) here
  | inr l ↦ later l
]

lt_or_eq : (i n : ℕ) → suc i ≤ suc n → (suc i ≤ n) ⊎ (n ≡ i)
lt_or_eq i n h = ground (arith, h)

-- A property of what is below `n` and of `n` is one of what is below `suc n`.
pub step_below : (P : ℕ → Type 0) (i n : ℕ) → (suc i ≤ n → P i) → P n → suc i ≤ suc n → P i
step_below P i n below here h = elim (lt_or_eq i n h) [
  | inl l ↦ below l
  | inr e ↦ transport (λ k. P (e k)) here
]
