-- ===== src/Printf/Numbers.antt =====
-- What `printint` of kernel/printf.c and user/printf.c prints, and `atoi` of user/ulib.c reads.
use paddle_os.Prelude.{
  leb, if◌then◌else◌, Bool-cases, All, ℕ, ◌+◌, ◌-◌, ◌*◌, ◌%◌, ◌^◌, ◌≤◌, ◌<◌, ◌≡◌, refl, ap, ◌∙◌,
  inl, inr, Bool, true, ◌&&◌, some, List, [], ◌∷◌, arith,
}
use paddle_os.Printf.{digit, print_word, kernel_printint, user_printint, atoi_from, atoi}
use paddle_os.Printf.Digits.{IsBase-10, IsBase-16, number, digit_value, print_word_lem}

abbrev pub Decimal : ℕ → Type 0
Decimal c = (b'0' ≤ c) × (c ≤ b'9')

Decimal-digit : (letter x : ℕ) → Decimal (digit letter (x % 10))
Decimal-digit letter x = ground arith

number-grows : (letter n : ℕ) (s : List ℕ) → n ≤ number letter 10 n s
unfolding number
number-grows letter n [] = omega arith
number-grows letter n (c ∷ s) = omega (arith, number-grows letter (n * 10 + digit_value letter c) s)

accepts : (c : ℕ) → Decimal c → (leb b'0' c && leb c b'9') ≡ true
accepts c d = ground (arith, d)

no_wrap :
    (letter n c : ℕ) (s : List ℕ)
    → Decimal c
    → number letter 10 (n * 10 + digit_value letter c) s < 2 ^ 32
    → (n * 10 + (c - b'0')) % 2 ^ 32 ≡ n * 10 + digit_value letter c
no_wrap letter n c s d b =
    ground (arith, d, b, number-grows letter (n * 10 + digit_value letter c) s)

atoi_from-number :
    (letter n : ℕ) (s : List ℕ)
    → All Decimal s
    → number letter 10 n s < 2 ^ 32
    → atoi_from n s ≡ number letter 10 n s
unfolding atoi_from number
atoi_from-number letter n [] a b = refl
atoi_from-number letter n (c ∷ s) a b = rw (accepts c a.0) (
    ap (λ m. atoi_from m s) (no_wrap letter n c s a.0 b)
    ∙ atoi_from-number letter (n * 10 + digit_value letter c) s a.1 b)

-- the number that `printint` prints where it takes the word `x` for an `int`, without its sign
abbrev pub magnitude : Bool → ℕ → ℕ
magnitude sgn x = if sgn && leb (2 ^ 31) x then 2 ^ 32 - x else x

abbrev pub with_sign : Bool → List ℕ → List ℕ
with_sign neg s = if neg then b'-' ∷ s else s

abbrev AnyByte : ℕ → Type 0
AnyByte c = Unit

-- the digits of a word in base 10 or 16
digits_10 :
    (letter x : ℕ) (neg : Bool)
    → b'A' ≤ letter
    → x < 2 ^ 32
    → (s : List ℕ) × (print_word letter 10 neg x ≡ some (with_sign neg s))
      × (number letter 10 0 s ≡ x)
      × All Decimal s
digits_10 letter x neg h b =
    print_word_lem letter 10 h IsBase-10 Decimal (Decimal-digit letter) 9 x neg (omega (arith, b))
      (omega arith)

digits_16 :
    (letter x : ℕ) (neg : Bool)
    → b'A' ≤ letter
    → x < 2 ^ 32
    → (s : List ℕ) × (print_word letter 16 neg x ≡ some (with_sign neg s))
      × (number letter 16 0 s ≡ x)
      × All AnyByte s
digits_16 letter x neg h b =
    print_word_lem letter 16 h IsBase-16 AnyByte (λ x. tt) 7 x neg (omega (arith, b)) (omega arith)

magnitude-word : (sgn : Bool) (x : ℕ) → x < 2 ^ 32 → magnitude sgn x < 2 ^ 32
magnitude-word sgn x b = ground (arith, b)

user_printint-print_word :
    (x base : ℕ) (sgn : Bool)
    → x < 2 ^ 32
    → user_printint x base sgn ≡ print_word b'A' base (sgn && leb (2 ^ 31) x) (magnitude sgn x)
unfolding user_printint
user_printint-print_word x base sgn b = elim (Bool-cases (sgn && leb (2 ^ 31) x)) [
  | inl e ↦ rw e (ap (print_word b'A' base true) (ground (arith, e, b)))
  | inr e ↦ rw e refl
]

kernel_printint-print_word :
    (x base : ℕ) (sgn : Bool)
    → x < 2 ^ 32
    → kernel_printint x base sgn ≡ print_word b'a' base (sgn && leb (2 ^ 31) x) (magnitude sgn x)
unfolding kernel_printint
kernel_printint-print_word x base sgn b = elim (Bool-cases (sgn && leb (2 ^ 31) x)) [
  | inl e ↦ rw e (ap (print_word b'a' base true) (ground (arith, e, b)))
  | inr e ↦ rw e refl
]

atoi-with_sign :
    (x : ℕ) (sgn : Bool) (s : List ℕ)
    → x < 2 ^ 32
    → atoi s ≡ magnitude sgn x
    → atoi (with_sign (sgn && leb (2 ^ 31) x) s) ≡ (if sgn && leb (2 ^ 31) x then 0 else x)
unfolding atoi atoi_from
atoi-with_sign x sgn s b e = elim (Bool-cases (sgn && leb (2 ^ 31) x)) [
  | inl n ↦ rw n refl
  | inr n ↦ rw n (e ∙ ground (arith, n))
]

-- `printint` of the user library in base 10 prints a sign exactly before a negative number, and then
-- decimal digits that `atoi` reads as the number without its sign. It fits its array of 16 bytes. Of
-- the whole text `atoi` reads back a number that is not negative, and 0 for any other.
pub atoi-printint :
    (x : ℕ) (sgn : Bool)
    → x < 2 ^ 32
    → (s : List ℕ) × (user_printint x 10 sgn ≡ some (with_sign (sgn && leb (2 ^ 31) x) s))
      × All Decimal s
      × (atoi s ≡ magnitude sgn x)
      × (atoi (with_sign (sgn && leb (2 ^ 31) x) s) ≡ (if sgn && leb (2 ^ 31) x then 0 else x))
unfolding atoi
atoi-printint x sgn b =
    let (s, e, v, d) =
      digits_10 b'A' (magnitude sgn x) (sgn && leb (2 ^ 31) x) (omega arith)
        (magnitude-word sgn x b) in
    let read = atoi_from-number b'A' 0 s d (omega (arith, v, magnitude-word sgn x b)) ∙ v in
    (s, user_printint-print_word x 10 sgn b ∙ e, d, read, atoi-with_sign x sgn s b read)

-- `printint` of the kernel, in base 10 and in base 16, fits its array of 16 bytes and prints a sign
-- exactly before a negative number, and then the digits of the number.
pub kernel_printint_lem :
    (x : ℕ) (sign : Bool)
    → x < 2 ^ 32
    → ((s : List ℕ) × (kernel_printint x 10 sign ≡ some (with_sign (sign && leb (2 ^ 31) x) s))
        × (number b'a' 10 0 s ≡ magnitude sign x))
      × ((s : List ℕ) × (kernel_printint x 16 sign ≡ some (with_sign (sign && leb (2 ^ 31) x) s))
          × (number b'a' 16 0 s ≡ magnitude sign x))
kernel_printint_lem x sign b =
    let (s, e, v, d) =
      digits_10 b'a' (magnitude sign x) (sign && leb (2 ^ 31) x) (omega arith)
        (magnitude-word sign x b) in
    let (t, f, w, d') =
      digits_16 b'a' (magnitude sign x) (sign && leb (2 ^ 31) x) (omega arith)
        (magnitude-word sign x b) in
    (
      (s, kernel_printint-print_word x 10 sign b ∙ e, v),
      (t, kernel_printint-print_word x 16 sign b ∙ f, w),
    )
