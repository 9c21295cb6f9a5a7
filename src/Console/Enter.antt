-- ===== src/Console/Enter.antt =====
-- A character put behind the line that is typed in kernel/console.c.
use paddle_os.Prelude.{
  ◌==◌, if◌then◌else◌, length, All, length-append, length-set, ℕ, suc, ◌+◌, ◌%◌, ◌^◌, ◌<◌, ◌≡◌,
  refl, sym, transport, ap, ap₂, ◌∙◌, ◌≢◌, Bool, true, false, ◌||◌, [], ◌∷◌, ◌++◌, arith, ok,
}
use paddle_os.Ring.{slots, length-slots}
use paddle_os.Console.{Cons, input_buf_size, held, enter}
use paddle_os.Console.Lines.{
  ready_count, line_count, ready, line, IsCons, All-append, with_char, ready-with_char,
  line-with_char, all-with_char, line-empty,
}
use paddle_os.Console.Editor.{typed, view, Ends}

-- the console with `ch` behind the line
abbrev pushed : ℕ → Cons → Cons
pushed ch c = record c { bytes = with_char ch c; e = (c.e + 1) % 2 ^ 32 }

abbrev completes : ℕ → Cons → Bool
completes ch c = ch == 10 || ch == 4 || held (pushed ch c) == input_buf_size

count-pushed :
    (ch : ℕ) (c : Cons)
    → IsCons c
    → ready_count c + line_count c < input_buf_size
    → (line_count (pushed ch c) ≡ suc (line_count c))
      × (held (pushed ch c) ≡ ready_count c + suc (line_count c))
count-pushed ch c h l = (
  omega (arith, h.words.0, h.words.1, h.words.2, l),
  omega (arith, h.words.0, h.words.1, h.words.2, l),
)

line-pushed :
    (ch : ℕ) (c : Cons)
    → IsCons c
    → ready_count c + line_count c < input_buf_size
    → line (pushed ch c) ≡ line c ++ (ch ∷ [])
line-pushed ch c h l =
    ap (slots input_buf_size (with_char ch c) c.w) (count-pushed ch c h l).0
    ∙ line-with_char c ch h l

-- the two ways that a character is put
finish :
    (b : Bool) (ch : ℕ) (c : Cons)
    → IsCons c
    → ready_count c + line_count c < input_buf_size
    → completes ch c ≡ b
    → IsCons (if b then record (pushed ch c) { w = (pushed ch c).e } else pushed ch c)
      × (view (if b then record (pushed ch c) { w = (pushed ch c).e } else pushed ch c)
          ≡ (if b then (ready c ++ (line c ++ (ch ∷ [])), []) else (ready c, line c ++ (ch ∷ []))))
finish true ch c h l q = (
  record {
    words = (h.words.0, omega arith, omega arith);
    size = length-set c.bytes (c.e % input_buf_size) ch ∙ h.size;
    fits = omega (arith, (count-pushed ch c h l).1, l);
    no_newline = transport (λ i. All (λ x. x ≢ 10) (sym empty_line i)) tt;
  },
  ap₂ (λ x y. (x, y))
      (ap (slots input_buf_size (with_char ch c) c.r) (count-pushed ch c h l).1
        ∙ all-with_char c ch h l)
      empty_line,
)
  where
    empty_line : line (record (pushed ch c) { w = (pushed ch c).e }) ≡ []
    empty_line = line-empty (record (pushed ch c) { w = (pushed ch c).e }) refl (omega arith)
finish false ch c h l q = (
  record {
    words = (h.words.0, h.words.1, omega arith);
    size = length-set c.bytes (c.e % input_buf_size) ch ∙ h.size;
    fits = omega (arith, (count-pushed ch c h l).0, l);
    no_newline =
        transport (λ i. All (λ x. x ≢ 10) (sym (line-pushed ch c h l) i))
          (All-append (λ x. x ≢ 10) (line c) (ch ∷ []) h.no_newline (ground (arith, q), tt));
  },
  ap₂ (λ x y. (x, y)) (ready-with_char c ch h l) (line-pushed ch c h l),
)

-- the test of the editor is the one of the code
completes-lengths :
    (ch : ℕ) (c : Cons)
    → IsCons c
    → ready_count c + line_count c < input_buf_size
    → completes ch c
      ≡ (ch == 10 || ch == 4 || length (ready c) + length (line c ++ (ch ∷ [])) == input_buf_size)
completes-lengths ch c h l =
    ap (λ n. ch == 10 || ch == 4 || n == input_buf_size)
      (omega (
        arith,
        (count-pushed ch c h l).1,
        length-append (line c) (ch ∷ []),
        length-slots input_buf_size c.bytes c.r (ready_count c),
        length-slots input_buf_size c.bytes c.w (line_count c),
      ))

pub enter-Ends :
    (ch : ℕ) (c : Cons)
    → IsCons c
    → ready_count c + line_count c < input_buf_size
    → Ends (ok (enter ch c)) (typed (if ch == 13 then 10 else ch) (view c))
unfolding enter
enter-Ends ch c h l =
    let ch' = if ch == 13 then 10 else ch in
    let f = finish (completes ch' c) ch' c h l refl in
    (
      enter ch c,
      refl,
      f.0,
      f.1
          ∙ ap
              (λ b.
                if b
                then (ready c ++ (line c ++ (ch' ∷ [])), [])
                else (ready c, line c ++ (ch' ∷ [])))
              (completes-lengths ch' c h l),
    )
