-- ===== src/Printf.antt =====
-- kernel/printf.c and user/printf.c: the formatting of numbers and of format strings; `atoi` of
-- user/ulib.c. What is written to the console or to a file descriptor is a list of bytes. An `int`
-- is its 32-bit word. The array `buf` of `printint` has 16 bytes: `none` is a write behind it.
-- `strings` reads the string that a pointer points to, and `args` are the 64-bit words that
-- `va_arg` takes in turn, where `none` is a `va_arg` behind the last.
pub mod Digits
pub mod Numbers
pub mod Pieces
mod Tests
use paddle_os.Prelude.{
  ltb, leb, ◌==◌, if◌then◌else◌, length, ℕ, zero, suc, ◌+◌, ◌-◌, ◌*◌, ◌/◌, ◌%◌, ◌^◌, Bool, true,
  false, ◌&&◌, Option, none, some, List, [], ◌∷◌, ◌++◌,
}

-- `digits[d]`: `letter` is the digit ten, `a` in the kernel's table and `A` in the user's.
abbrev pub digit : (letter d : ℕ) → ℕ
digit letter d = if ltb d 10 then b'0' + d else letter + (d - 10)

-- `do { buf[i++] = digits[x % base]; } while ((x /= base) != 0);`, in at most `room` bytes
unfoldable pub put_digits : (letter base room x : ℕ) → Option (List ℕ)
put_digits letter base zero x = none
put_digits letter base (suc room) x =
    let rest = put_digits letter base room (x / base) in
    if x / base == 0
    then some (digit letter (x % base) ∷ [])
    else elim rest [ none ↦ none | some ds ↦ some (digit letter (x % base) ∷ ds) ]

-- `while (--i >= 0) putc(buf[i]);`
unfoldable pub backwards : List ℕ → List ℕ → List ℕ
backwards [] out = out
backwards (c ∷ cs) out = backwards cs (c ∷ out)

-- the sign behind the digits, if there is room for it
unfoldable pub put_sign : Bool → List ℕ → Option (List ℕ)
put_sign neg buf =
    if neg then (if ltb (length buf) 16 then some (buf ++ b'-' ∷ []) else none) else some buf

unfoldable pub print_word : (letter base : ℕ) → Bool → (x : ℕ) → Option (List ℕ)
print_word letter base neg x = elim (put_digits letter base 16 x) [
  | none ↦ none
  | some ds ↦ elim (put_sign neg ds) [ none ↦ none | some buf ↦ some (backwards buf []) ]
]

-- `printint` of the kernel
unfoldable pub kernel_printint : (num base : ℕ) (sign : Bool) → Option (List ℕ)
kernel_printint num base sign =
    let neg = sign && leb (2 ^ 31) num in
    print_word b'a' base neg (if neg then (2 ^ 32 - num) % 2 ^ 32 else num)

-- `printint` of the user library
unfoldable pub user_printint : (xx base : ℕ) (sgn : Bool) → Option (List ℕ)
user_printint xx base sgn =
    if sgn && leb (2 ^ 31) xx
    then print_word b'A' base true ((2 ^ 32 - xx) % 2 ^ 32)
    else print_word b'A' base false xx

-- `for (i = 0; i < 16; i++, x <<= 4) putc(digits[x >> 60]);`
unfoldable pub pointer_digits : (letter n x : ℕ) → List ℕ
pointer_digits letter zero x = []
pointer_digits letter (suc n) x =
    digit letter (x / 2 ^ 60) ∷ pointer_digits letter n (x * 16 % 2 ^ 64)

abbrev pub printptr : (letter x : ℕ) → List ℕ
printptr letter x = b'0' ∷ b'x' ∷ pointer_digits letter 16 x

-- `while ('0' <= *s && *s <= '9') n = n * 10 + *s++ - '0';`
unfoldable pub atoi_from : (n : ℕ) → List ℕ → ℕ
atoi_from n [] = n
atoi_from n (c ∷ s) =
    let rest = atoi_from ((n * 10 + (c - b'0')) % 2 ^ 32) s in
    if leb b'0' c && leb c b'9' then rest else n

unfoldable pub atoi : List ℕ → ℕ
atoi s = atoi_from 0 s

-- what a directive prints, and the arguments it leaves
abbrev pub Printed : Type 0
Printed = Option (List ℕ × List ℕ)

abbrev pub take_arg : List ℕ → (ℕ → Option (List ℕ)) → Printed
take_arg [] print = none
take_arg (a ∷ args) print = elim (print a) [ none ↦ none | some out ↦ some (out, args) ]

-- `(null)` where the pointer is 0
abbrev pub string_at : (ℕ → List ℕ) → ℕ → List ℕ
string_at strings p = if p == 0 then b'(' ∷ b'n' ∷ b'u' ∷ b'l' ∷ b'l' ∷ b')' ∷ [] else strings p

-- The `switch` of the kernel's `printf`.
unfoldable pub kernel_directive : (strings : ℕ → List ℕ) (c : ℕ) (args : List ℕ) → Printed
kernel_directive strings c args =
    if c == b'd'
    then take_arg args (λ a. kernel_printint (a % 2 ^ 32) 10 true)
    else if c == b'x'
    then take_arg args (λ a. kernel_printint (a % 2 ^ 32) 16 true)
    else if c == b'p'
    then take_arg args (λ a. some (printptr b'a' a))
    else if c == b's'
    then take_arg args (λ a. some (string_at strings a))
    else if c == b'%'
    then some (b'%' ∷ [], args)
    else some (b'%' ∷ c ∷ [], args)

abbrev pub then_print : Printed → (List ℕ → Option (List ℕ)) → Option (List ℕ)
then_print none rest = none
then_print (some (out, args)) rest = elim (rest args) [
  | none ↦ none
  | some more ↦ some (out ++ more)
]

-- the kernel's `printf`, and a string that ends in `%` prints nothing for it
unfoldable pub kernel_printf : (strings : ℕ → List ℕ) (fmt args : List ℕ) → Option (List ℕ)
kernel_printf strings [] args = some []
kernel_printf strings (c ∷ []) args = some (if c == b'%' then [] else c ∷ [])
kernel_printf strings (c ∷ d ∷ fmt) args = elim (c == b'%') [
  | true ↦ then_print (kernel_directive strings d args) (kernel_printf strings fmt)
  | false ↦ then_print (some (c ∷ [], args)) (kernel_printf strings (d ∷ fmt))
]

-- The branches of `vprintf` behind a `%`. `va_arg(ap, uint64)` goes to an `int` parameter at `l`.
unfoldable pub user_directive : (strings : ℕ → List ℕ) (c : ℕ) (args : List ℕ) → Printed
user_directive strings c args =
    if c == b'd'
    then take_arg args (λ a. user_printint (a % 2 ^ 32) 10 true)
    else if c == b'l'
    then take_arg args (λ a. user_printint (a % 2 ^ 32) 10 false)
    else if c == b'x'
    then take_arg args (λ a. user_printint (a % 2 ^ 32) 16 false)
    else if c == b'p'
    then take_arg args (λ a. some (printptr b'A' a))
    else if c == b's'
    then take_arg args (λ a. some (string_at strings a))
    else if c == b'c'
    then take_arg args (λ a. some (a % 256 ∷ []))
    else if c == b'%'
    then some (b'%' ∷ [], args)
    else some (b'%' ∷ c ∷ [], args)

-- `percent`: the variable `state` is '%' and not 0.
unfoldable pub vprintf_from :
    (strings : ℕ → List ℕ) (percent : Bool) (fmt args : List ℕ) → Option (List ℕ)
vprintf_from strings percent [] args = some []
vprintf_from strings true (c ∷ fmt) args =
    then_print (user_directive strings c args) (vprintf_from strings false fmt)
vprintf_from strings false (c ∷ fmt) args = elim (c == b'%') [
  | true ↦ vprintf_from strings true fmt args
  | false ↦ then_print (some (c ∷ [], args)) (vprintf_from strings false fmt)
]

unfoldable pub vprintf : (strings : ℕ → List ℕ) (fmt args : List ℕ) → Option (List ℕ)
vprintf strings fmt args = vprintf_from strings false fmt args
