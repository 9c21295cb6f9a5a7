-- ===== src/Printf/Digits.antt =====
-- The digits of a number, printed and read.
use paddle_os.Prelude.{
  ltb, leb, ◌==◌, if◌then◌else◌, Bool-cases, length, All, ℕ, zero, suc, ◌+◌, ◌-◌, ◌*◌, ◌/◌, ◌%◌,
  ◌≤◌, ◌<◌, ◌≡◌, refl, sym, ap, ◌∙◌, inl, inr, Bool, true, false, some, List, [], ◌∷◌, ◌++◌, arith,
}
use paddle_os.Printf.{digit, put_digits, backwards, put_sign, print_word}

-- `base ^ n`
abbrev pub power : (base n : ℕ) → ℕ
power base zero = 1
power base (suc n) = base * power base n

-- what the lemmas need of a base, which arithmetic gives at a literal one
pub record IsBase (base : ℕ) : Type 0 where
  pub small : (x : ℕ) → x % base < 16
  pub split : (x : ℕ) → x ≡ x / base * base + x % base
  pub smaller : (x p : ℕ) → x < base * p → x / base < p
  pub no_more : (x : ℕ) → x < base → x / base ≡ 0

pub IsBase-10 : IsBase 10
IsBase-10 = record {
  small = λ x. omega arith;
  split = λ x. omega arith;
  smaller = λ x p h. omega (arith, h);
  no_more = λ x h. omega (arith, h);
}

pub IsBase-16 : IsBase 16
IsBase-16 = record {
  small = λ x. omega arith;
  split = λ x. omega arith;
  smaller = λ x p h. omega (arith, h);
  no_more = λ x h. omega (arith, h);
}

-- the number that a digit stands for
abbrev pub digit_value : (letter c : ℕ) → ℕ
digit_value letter c = if leb c b'9' then c - b'0' else c - letter + 10

-- the number that the digits `s` stand for behind a number `n`
unfoldable pub number : (letter base n : ℕ) → List ℕ → ℕ
number letter base n [] = n
number letter base n (c ∷ s) = number letter base (n * base + digit_value letter c) s

digit_value-digit :
    (letter d : ℕ) → b'A' ≤ letter → d < 16 → digit_value letter (digit letter d) ≡ d
digit_value-digit letter d h b = ground (arith, h, b)

backwards-append :
    (ds : List ℕ) (c : ℕ) (out : List ℕ) → backwards (ds ++ c ∷ []) out ≡ c ∷ backwards ds out
unfolding backwards
backwards-append [] c out = refl
backwards-append (d ∷ ds) c out = backwards-append ds c (d ∷ out)

room_left : (n : ℕ) (ds : List ℕ) → length ds ≤ suc n → n < 15 → ltb (length ds) 16 ≡ true
room_left n ds l r = ground (arith, l, r)

-- `Printed` holds of every digit that is printed.
module _ (letter base : ℕ) (h : b'A' ≤ letter) (ok_base : IsBase base) (Printed : ℕ → Type 0)
    (prints : (x : ℕ) → Printed (digit letter (x % base))) where
  last_value : (x : ℕ) → x / base ≡ 0 → 0 * base + digit_value letter (digit letter (x % base)) ≡ x
  last_value x z =
      grind (arith, z, digit_value-digit letter (x % base) h (ok_base.small x), ok_base.split x)

  more_value : (x : ℕ) → x / base * base + digit_value letter (digit letter (x % base)) ≡ x
  more_value x =
      ap (λ v. x / base * base + v) (digit_value-digit letter (x % base) h (ok_base.small x))
      ∙ sym (ok_base.split x)

  -- `ds` are the digits of `x` from the last to the first.
  abbrev Digits : ℕ → List ℕ → Type 0
  Digits x ds =
      (out : List ℕ)
      → (number letter base 0 (backwards ds out) ≡ number letter base x out)
        × (All Printed out → All Printed (backwards ds out))

  Digits-last : (x : ℕ) → x / base ≡ 0 → Digits x (digit letter (x % base) ∷ [])
  unfolding number backwards
  Digits-last x z out = (ap (λ v. number letter base v out) (last_value x z), λ a. (prints x, a))

  Digits-more :
      (x : ℕ) (ds : List ℕ) → Digits (x / base) ds → Digits x (digit letter (x % base) ∷ ds)
  unfolding number backwards
  Digits-more x ds d out =
      let (v, all) = d (digit letter (x % base) ∷ out) in
      (v ∙ ap (λ v. number letter base v out) (more_value x), λ a. all (prints x, a))

  put_digits_lem :
      (room n x : ℕ)
      → x < base * power base n
      → n < room
      → (ds : List ℕ) × (put_digits letter base room x ≡ some ds)
        × (length ds ≤ suc n)
        × Digits x ds
  unfolding put_digits
  put_digits_lem zero n x b r = absurd (omega (arith, r))
  put_digits_lem (suc room) zero x b r =
      let z = ok_base.no_more x (omega (arith, b)) in
      (digit letter (x % base) ∷ [], ground (arith, z), omega arith, Digits-last x z)
  put_digits_lem (suc room) (suc n) x b r = elim (Bool-cases (x / base == 0)) [
    | inl e ↦
        (digit letter (x % base) ∷ [], rw e refl, omega arith, Digits-last x (ground (arith, e)))
    | inr e ↦
        let (ds, q, l, d) =
          put_digits_lem room n (x / base) (ok_base.smaller x _ b) (omega (arith, r)) in
        (digit letter (x % base) ∷ ds, rw e (rw q refl), omega (arith, l), Digits-more x ds d)
  ]

  -- what `print_word` prints: the digits of `x` behind a sign
  abbrev pub signed : Bool → List ℕ → List ℕ
  signed neg s = if neg then b'-' ∷ s else s

  pub print_word_lem :
      (n x : ℕ) (neg : Bool)
      → x < base * power base n
      → n < 15
      → (s : List ℕ) × (print_word letter base neg x ≡ some (signed neg s))
        × (number letter base 0 s ≡ x)
        × All Printed s
  unfolding print_word put_sign number
  print_word_lem n x false b r =
      let (ds, q, l, d) = put_digits_lem 16 n x b (omega (arith, r)) in
      (backwards ds [], rw (q, print_word) refl, (d []).0, (d []).1 tt)
  print_word_lem n x true b r =
      let (ds, q, l, d) = put_digits_lem 16 n x b (omega (arith, r)) in
      (
        backwards ds [],
        rw (q, print_word) (rw (room_left n ds l r) (ap some (backwards-append ds b'-' []))),
        (d []).0,
        (d []).1 tt,
      )
