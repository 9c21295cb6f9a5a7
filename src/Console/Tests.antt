-- ===== src/Console/Tests.antt =====
-- kernel/console.c with `a` typed and nothing handed to the readers.
use paddle_os.Prelude.{
  replicate, Outcome, ℕ, ◌≡◌, refl, Bool, true, false, Option, none, some, List, [], ◌∷◌, arith, ok,
  panic, out_of_fuel,
}
use paddle_os.Console.Read.{Reads, read_list, consoleread_lem}
use paddle_os.Ring.{slots}
use paddle_os.Console.{Cons, Turn, consoleintr, enter, consputc, consoleread, finished}
use paddle_os.Console.Lines.{IsCons, ready}
use paddle_os.Console.Editor.{edit, view, Ends}
use paddle_os.Console.Edit.{consoleintr_lem}

abbrev one_typed : Cons
one_typed = record { bytes = 97 ∷ replicate 127 0; r = 0; w = 0; e = 1 }

one_typed-IsCons : IsCons one_typed
unfolding slots
one_typed-IsCons = record {
  words = (omega arith, omega arith, omega arith);
  size = refl;
  fits = omega arith;
  no_newline = (omega arith, tt);
}

-- a carriage return
consoleintr_lem_example : Ends (consoleintr 13 one_typed) (edit 13 (view one_typed))
consoleintr_lem_example = consoleintr_lem 13 one_typed one_typed-IsCons

abbrev handed_over : Outcome Turn → Option (List ℕ × List ℕ)
handed_over (ok t) = some (ready t.cons, t.sent)
handed_over panic = none
handed_over out_of_fuel = none

-- The line is handed over as it was typed, with a newline.
consoleintr-return : handed_over (consoleintr 13 one_typed) ≡ some (97 ∷ 10 ∷ [], 10 ∷ [])
unfolding slots consoleintr enter consputc
consoleintr-return = refl

-- the line `ab` with its newline handed over, and nothing typed
abbrev one_line : Cons
one_line = record { bytes = 97 ∷ 98 ∷ 10 ∷ replicate 125 0; r = 0; w = 3; e = 3 }

one_line-IsCons : IsCons one_line
unfolding slots
one_line-IsCons = record {
  words = (omega arith, omega arith, omega arith);
  size = refl;
  fits = omega arith;
  no_newline = tt;
}

abbrev all_writable : ℕ → ℕ → Bool
all_writable dst ch = true

consoleread_lem_example :
    Reads one_line
      (consoleread all_writable false 4096 0 80 one_line)
      (read_list all_writable false 4096 0 80 (ready one_line))
consoleread_lem_example = consoleread_lem all_writable false 4096 0 80 one_line one_line-IsCons

consoleread-line : (consoleread all_writable false 4096 0 80 one_line).0 ≡ finished 3
unfolding consoleread
consoleread-line = refl
