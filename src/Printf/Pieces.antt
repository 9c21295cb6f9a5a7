-- ===== src/Printf/Pieces.antt =====
-- Format strings as lists of pieces: what `printf` prints for one is what its pieces print.
use paddle_os.Prelude.{
  ◌==◌, All, ℕ, ◌%◌, ◌^◌, ◌≡◌, refl, ap, true, false, Option, none, some, List, [], ◌∷◌, ◌++◌,
}
use paddle_os.Printf.{
  kernel_printint, user_printint, printptr, string_at, kernel_directive, kernel_printf,
  user_directive, vprintf_from, vprintf, then_print,
}

pub data Piece : Type 0 where
  text : ℕ → Piece
  dec : ℕ → Piece  -- %d
  hex : ℕ → Piece  -- %x
  pointer : ℕ → Piece  -- %p
  string : ℕ → Piece  -- %s
  percent : Piece  -- %%

-- No byte of the text is a `%`.
abbrev pub IsPiece : Piece → Type 0
IsPiece (text c) = (c == b'%') ≡ false
IsPiece (dec a) = Unit
IsPiece (hex a) = Unit
IsPiece (pointer a) = Unit
IsPiece (string a) = Unit
IsPiece percent = Unit

-- the bytes of a piece in a format string in front of the rest
abbrev pub piece_fmt : Piece → List ℕ → List ℕ
piece_fmt (text c) fmt = c ∷ fmt
piece_fmt (dec a) fmt = b'%' ∷ b'd' ∷ fmt
piece_fmt (hex a) fmt = b'%' ∷ b'x' ∷ fmt
piece_fmt (pointer a) fmt = b'%' ∷ b'p' ∷ fmt
piece_fmt (string a) fmt = b'%' ∷ b's' ∷ fmt
piece_fmt percent fmt = b'%' ∷ b'%' ∷ fmt

abbrev pub piece_args : Piece → List ℕ → List ℕ
piece_args (text c) args = args
piece_args (dec a) args = a ∷ args
piece_args (hex a) args = a ∷ args
piece_args (pointer a) args = a ∷ args
piece_args (string a) args = a ∷ args
piece_args percent args = args

unfoldable pub fmt_of : List Piece → List ℕ
fmt_of [] = []
fmt_of (p ∷ ps) = piece_fmt p (fmt_of ps)

unfoldable pub args_of : List Piece → List ℕ
args_of [] = []
args_of (p ∷ ps) = piece_args p (args_of ps)

-- what a piece prints, by what prints the numbers
abbrev pub piece_out :
    (print_dec print_hex : ℕ → Option (List ℕ)) (letter : ℕ) (strings : ℕ → List ℕ)
    → Piece
    → Option (List ℕ)
piece_out print_dec print_hex letter strings (text c) = some (c ∷ [])
piece_out print_dec print_hex letter strings (dec a) = print_dec (a % 2 ^ 32)
piece_out print_dec print_hex letter strings (hex a) = print_hex (a % 2 ^ 32)
piece_out print_dec print_hex letter strings (pointer a) = some (printptr letter a)
piece_out print_dec print_hex letter strings (string a) = some (string_at strings a)
piece_out print_dec print_hex letter strings percent = some (b'%' ∷ [])

abbrev pub append_out : Option (List ℕ) → Option (List ℕ) → Option (List ℕ)
append_out none b = none
append_out (some x) none = none
append_out (some x) (some y) = some (x ++ y)

unfoldable pub render : (Piece → Option (List ℕ)) → List Piece → Option (List ℕ)
render out [] = some []
render out (p ∷ ps) = append_out (out p) (render out ps)

abbrev pub kernel_out : (ℕ → List ℕ) → Piece → Option (List ℕ)
kernel_out = piece_out (λ a. kernel_printint a 10 true) (λ a. kernel_printint a 16 true) b'a'

abbrev pub user_out : (ℕ → List ℕ) → Piece → Option (List ℕ)
user_out = piece_out (λ a. user_printint a 10 true) (λ a. user_printint a 16 false) b'A'

then_print-append :
    (o : Option (List ℕ)) (args : List ℕ) (rest : List ℕ → Option (List ℕ)) (r : Option (List ℕ))
    → rest args ≡ r
    → then_print (elim o [ none ↦ none | some out ↦ some (out, args) ]) rest ≡ append_out o r
then_print-append none args rest r e = refl
then_print-append (some out) args rest none e = rw (e, then_print) refl
then_print-append (some out) args rest (some x) e = rw (e, then_print) refl

module _ (strings : ℕ → List ℕ) where
  kernel_piece :
      (p : Piece) (fmt args : List ℕ) (r : Option (List ℕ))
      → IsPiece p
      → kernel_printf strings fmt args ≡ r
      → kernel_printf strings (piece_fmt p fmt) (piece_args p args)
        ≡ append_out (kernel_out strings p) r
  unfolding kernel_printf kernel_directive
  kernel_piece (text c) [] args r h e = rw h (ap (append_out (some (c ∷ []))) e)
  kernel_piece (text c) (d ∷ fmt) args r h e =
      rw (h, kernel_printf)
        (then_print-append (some (c ∷ [])) args (kernel_printf strings (d ∷ fmt)) r e)
  kernel_piece (dec a) fmt args r h e =
      then_print-append (kernel_printint (a % 2 ^ 32) 10 true) args (kernel_printf strings fmt) r e
  kernel_piece (hex a) fmt args r h e =
      then_print-append (kernel_printint (a % 2 ^ 32) 16 true) args (kernel_printf strings fmt) r e
  kernel_piece (pointer a) fmt args r h e =
      then_print-append (some (printptr b'a' a)) args (kernel_printf strings fmt) r e
  kernel_piece (string a) fmt args r h e =
      then_print-append (some (string_at strings a)) args (kernel_printf strings fmt) r e
  kernel_piece percent fmt args r h e =
      then_print-append (some (b'%' ∷ [])) args (kernel_printf strings fmt) r e

  user_piece :
      (p : Piece) (fmt args : List ℕ) (r : Option (List ℕ))
      → IsPiece p
      → vprintf_from strings false fmt args ≡ r
      → vprintf_from strings false (piece_fmt p fmt) (piece_args p args)
        ≡ append_out (user_out strings p) r
  unfolding vprintf_from user_directive
  user_piece (text c) fmt args r h e =
      rw (h, vprintf_from)
        (then_print-append (some (c ∷ [])) args (vprintf_from strings false fmt) r e)
  user_piece (dec a) fmt args r h e =
      then_print-append (user_printint (a % 2 ^ 32) 10 true) args (vprintf_from strings false fmt) r
        e
  user_piece (hex a) fmt args r h e =
      then_print-append (user_printint (a % 2 ^ 32) 16 false) args (vprintf_from strings false fmt)
        r e
  user_piece (pointer a) fmt args r h e =
      then_print-append (some (printptr b'A' a)) args (vprintf_from strings false fmt) r e
  user_piece (string a) fmt args r h e =
      then_print-append (some (string_at strings a)) args (vprintf_from strings false fmt) r e
  user_piece percent fmt args r h e =
      then_print-append (some (b'%' ∷ [])) args (vprintf_from strings false fmt) r e

-- For a format string of plain text and the directives %d, %x, %p, %s and %%, with an argument for
-- each that takes one, the kernel's `printf` and `vprintf` of the user library print what the
-- pieces print, one after the other.
pub printf_lem :
    (strings : ℕ → List ℕ) (ps : List Piece)
    → All IsPiece ps
    → (kernel_printf strings (fmt_of ps) (args_of ps) ≡ render (kernel_out strings) ps)
      × (vprintf strings (fmt_of ps) (args_of ps) ≡ render (user_out strings) ps)
unfolding fmt_of args_of render kernel_printf vprintf vprintf_from
printf_lem strings [] h = (refl, refl)
printf_lem strings (p ∷ ps) h =
    let (k, u) = printf_lem strings ps h.1 in
    (
      kernel_piece strings p (fmt_of ps) (args_of ps) (render (kernel_out strings) ps) h.0 k,
      user_piece strings p (fmt_of ps) (args_of ps) (render (user_out strings) ps) h.0 u,
    )
