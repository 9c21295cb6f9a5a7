-- ===== src/Prelude/Runs.antt =====
-- Runs of kernel code that may call `panic` and never return.

-- `out_of_fuel`: the model gave the loop too few rounds.
pub data Outcome {ℓ} (A : Type ℓ) : Type ℓ where
  ok : A → Outcome A
  panic : Outcome A
  out_of_fuel : Outcome A

module _ {ℓ κ} {A : Type ℓ} {B : Type κ} where
  infixl 5 ◌>>=◌
  abbrev pub ◌>>=◌ : Outcome A → (A → Outcome B) → Outcome B
  ok a >>= f = f a
  panic >>= f = panic
  out_of_fuel >>= f = out_of_fuel
