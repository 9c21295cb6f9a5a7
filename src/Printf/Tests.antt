-- ===== src/Printf/Tests.antt =====
-- Runs of the formatting functions of kernel/printf.c and user/printf.c.
use paddle_os.Prelude.{
  leb, if◌then◌else◌, All, ℕ, ◌^◌, ◌≡◌, refl, true, ◌&&◌, some, List, [], ◌∷◌, arith,
}
use paddle_os.Printf.{kernel_printint, user_printint, kernel_printf, vprintf, atoi}
use paddle_os.Printf.Digits.{number}
use paddle_os.Printf.Numbers.{Decimal, magnitude, with_sign, atoi-printint, kernel_printint_lem}
use paddle_os.Printf.Pieces.{
  Piece, text, dec, percent, string, fmt_of, args_of, render, kernel_out, user_out, printf_lem,
}

-- -40 as a word
abbrev negative : ℕ
negative = 4294967256

atoi-printint_example :
    (s : List ℕ) × (user_printint negative 10 true
      ≡ some (with_sign (true && leb (2 ^ 31) negative) s))
    × All Decimal s
    × (atoi s ≡ magnitude true negative)
    × (atoi (with_sign (true && leb (2 ^ 31) negative) s)
        ≡ (if true && leb (2 ^ 31) negative then 0 else negative))
atoi-printint_example = atoi-printint negative true (omega arith)

kernel_printint_lem_example :
    ((s : List ℕ) × (kernel_printint negative 10 true
        ≡ some (with_sign (true && leb (2 ^ 31) negative) s))
      × (number b'a' 10 0 s ≡ magnitude true negative))
    × ((s : List ℕ) × (kernel_printint negative 16 true
          ≡ some (with_sign (true && leb (2 ^ 31) negative) s))
        × (number b'a' 16 0 s ≡ magnitude true negative))
kernel_printint_lem_example = kernel_printint_lem negative true (omega arith)

abbrev letters : ℕ → List ℕ
letters p = b'o' ∷ b'k' ∷ []

-- `x%d%%%s`
abbrev pieces : List Piece
pieces = text b'x' ∷ dec negative ∷ percent ∷ string 4096 ∷ []

printf_lem_example :
    (kernel_printf letters (fmt_of pieces) (args_of pieces) ≡ render (kernel_out letters) pieces)
    × (vprintf letters (fmt_of pieces) (args_of pieces) ≡ render (user_out letters) pieces)
printf_lem_example = printf_lem letters pieces (refl, (tt, (tt, (tt, tt))))
