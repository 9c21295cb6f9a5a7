-- ===== src/Console/Editor.antt =====
-- The line editor of kernel/console.c on two lists, as a function of its own.
use paddle_os.Prelude.{
  ltb, ◌==◌, if◌then◌else◌, length, Outcome, ℕ, ◌+◌, ◌≡◌, not, ◌&&◌, ◌||◌, List, [], ◌∷◌, ◌++◌, ok,
}
use paddle_os.Console.{Cons, Turn, input_buf_size}
use paddle_os.Console.Lines.{ready, line, IsCons}

abbrev pub but_last : List ℕ → List ℕ
but_last [] = []
but_last (x ∷ []) = []
but_last (x ∷ y ∷ xs) = x ∷ but_last (y ∷ xs)

-- The editor: the lines that are complete, and the one that is typed. A character that ends a line
-- or fills the buffer completes the line.
abbrev pub typed : ℕ → List ℕ × List ℕ → List ℕ × List ℕ
typed ch v =
    let l = v.1 ++ (ch ∷ []) in
    if ch == 10 || ch == 4 || length v.0 + length l == input_buf_size
    then (v.0 ++ l, [])
    else (v.0, l)

abbrev pub edit : ℕ → List ℕ × List ℕ → List ℕ × List ℕ
edit ch v =
    if ch == 16
    then v
    else if ch == 21
    then (v.0, [])
    else if ch == 8 || ch == 127
    then (v.0, but_last v.1)
    else if not (ch == 0) && ltb (length v.0 + length v.1) input_buf_size
    then typed (if ch == 13 then 10 else ch) v
    else v

abbrev pub view : Cons → List ℕ × List ℕ
view c = (ready c, line c)

-- The call ended, on a well-formed console whose lists are `v`.
abbrev pub Ends : Outcome Turn → List ℕ × List ℕ → Type 0
Ends r v = (t : Turn) × (r ≡ ok t) × IsCons t.cons × (view t.cons ≡ v)
