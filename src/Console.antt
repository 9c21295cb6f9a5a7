-- ===== src/Console.antt =====
-- kernel/console.c: the line editing of `consoleintr` and the reading of `consoleread`, under
-- `cons.lock`. A run of `consoleread` goes from `acquire` or a return from `sleep` up to the next
-- `sleep` or `release`. What is sent to the UART is a list. `copyout` of one byte and what
-- `killed` answers are arguments. A character is a byte.
pub mod Lines
pub mod Editor
pub mod Rubout
pub mod Enter
pub mod Edit
pub mod Read
mod Tests
use paddle_os.Prelude.{
  ltb, ◌==◌, if◌then◌else◌, set, get_or, Outcome, ◌>>=◌, ℕ, zero, suc, ◌+◌, ◌-◌, ◌%◌, ◌^◌, Bool,
  true, false, not, ◌&&◌, ◌||◌, List, [], ◌∷◌, ◌++◌, ok, out_of_fuel,
}
use paddle_os.Ring.{slots}

-- `INPUT_BUF_SIZE`
abbrev pub input_buf_size : ℕ
input_buf_size = 128

pub record Cons : Type 0 where
  pub bytes : List ℕ
  pub r : ℕ  -- uint
  pub w : ℕ  -- uint
  pub e : ℕ  -- uint

-- What `consoleintr` did: the console it left, the characters it sent, whether it woke the readers
-- and whether it printed the processes.
pub record Turn : Type 0 where
  pub cons : Cons
  pub sent : List ℕ
  pub woken : Bool
  pub dumped : Bool

abbrev pub backspace : ℕ
backspace = 0x100

unfoldable pub consputc : ℕ → List ℕ
consputc c = if c == backspace then 8 ∷ 32 ∷ 8 ∷ [] else c ∷ []

-- `cons.e--;`
abbrev pub retreat : Cons → Cons
retreat c = record c { e = (c.e + (2 ^ 32 - 1)) % 2 ^ 32 }

-- the loop of Ctrl-U
unfoldable pub kill_line : (fuel : ℕ) → Cons → Outcome (Cons × List ℕ)
kill_line zero c = out_of_fuel
kill_line (suc fuel) c =
    let c' = retreat c in
    let rest = kill_line fuel c' >>= λ s. ok (s.0, consputc backspace ++ s.1) in
    if not (c.e == c.w) && not (get_or c.bytes (c'.e % input_buf_size) 0 == 10)
    then rest
    else ok (c, [])

-- `cons.e - cons.r`
abbrev pub held : Cons → ℕ
held c = (c.e + (2 ^ 32 - c.r)) % 2 ^ 32

-- a character that is put into the buffer
unfoldable pub enter : ℕ → Cons → Turn
enter ch c =
    let ch' = if ch == 13 then 10 else ch in
    let c' = record c { bytes = set c.bytes (c.e % input_buf_size) ch'; e = (c.e + 1) % 2 ^ 32 } in
    let complete = ch' == 10 || ch' == 4 || held c' == input_buf_size in
    record {
      cons = if complete then record c' { w = c'.e } else c';
      sent = consputc ch';
      woken = complete;
      dumped = false;
    }

-- The buffer has at most 128 characters, and one round more ends the loop.
unfoldable pub consoleintr : ℕ → Cons → Outcome Turn
consoleintr ch c =
    if ch == 16
    then ok (record { cons = c; sent = []; woken = false; dumped = true })
    else if ch == 21
    then (kill_line (input_buf_size + 1) c >>= λ s.
        ok (record { cons = s.0; sent = s.1; woken = false; dumped = false }))
    else if ch == 8 || ch == 127
    then (if c.e == c.w
        then ok (record { cons = c; sent = []; woken = false; dumped = false })
        else ok
            (record { cons = retreat c; sent = consputc backspace; woken = false; dumped = false }))
    else if not (ch == 0) && ltb (held c) input_buf_size
    then ok (enter ch c)
    else ok (record { cons = c; sent = []; woken = false; dumped = false })

-- `finished i`: the call returns `i`; `refused`: it returns -1; `asleep i`: it sleeps. `i` is the
-- count of the bytes copied.
pub data ReadEnd : Type 0 where
  finished : ℕ → ReadEnd
  refused : ReadEnd
  asleep : ℕ → ReadEnd

-- one run of `consoleread`, with `i` bytes copied and `left` to go
unfoldable pub consoleread :
    (copyout : ℕ → ℕ → Bool) (killed : Bool) (dst i left : ℕ) → Cons → ReadEnd × Cons
consoleread copyout killed dst i zero c = (finished i, c)
consoleread copyout killed dst i (suc left) c =
    let ch = get_or c.bytes (c.r % input_buf_size) 0 in
    let c' = record c { r = (c.r + 1) % 2 ^ 32 } in
    let rest = consoleread copyout killed dst (suc i) left c' in
    if c.r == c.w
    then (if killed then refused else asleep i, c)
    else if ch == 4
    then (finished i, if ltb 0 i then c else c')
    else if not (copyout (dst + i) ch)
    then (finished i, c')
    else if ch == 10
    then (finished (suc i), c')
    else rest
