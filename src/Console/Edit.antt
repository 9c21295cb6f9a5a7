-- ===== src/Console/Edit.antt =====
-- `consoleintr` of kernel/console.c against the line editor.
use paddle_os.Prelude.{
  ltb, ◌==◌, if◌then◌else◌, Bool-cases, length, All, ℕ, ◌+◌, ◌≡◌, refl, sym, transport, ap, ◌∙◌,
  ◌≢◌, inl, inr, true, false, not, ◌&&◌, ◌||◌, [], arith, ok,
}
use paddle_os.Ring.{length-slots}
use paddle_os.Console.{Cons, input_buf_size, consputc, backspace, retreat, held, enter, consoleintr}
use paddle_os.Console.Lines.{ready_count, line_count, ready, line, IsCons, line-empty}
use paddle_os.Console.Editor.{but_last, typed, edit, view, Ends}
use paddle_os.Console.Rubout.{IsCons-retreat, line-but_last, kill_line-ends}
use paddle_os.Console.Enter.{enter-Ends}

killed_line-Ends : (c : Cons) → IsCons c → Ends (consoleintr 21 c) (ready c, [])
unfolding consoleintr
killed_line-Ends c h =
    let k = kill_line-ends (input_buf_size + 1) c h (omega (arith, h.fits)) in
    let d = record c { e = c.w } in
    let empty_line = line-empty d refl h.words.1 in
    rw k.1 (
      record { cons = d; sent = k.0; woken = false; dumped = false },
      refl,
      record {
        words = (h.words.0, h.words.1, h.words.1);
        size = h.size;
        fits = omega (arith, h.fits, h.words.1);
        no_newline = transport (λ i. All (λ x. x ≢ 10) (sym empty_line i)) tt;
      },
      ap (λ l. (ready c, l)) empty_line,
    )

-- the branch of the backspace
rubout-Ends :
    (c : Cons)
    → IsCons c
    → Ends
        (if c.e == c.w
          then ok (record { cons = c; sent = []; woken = false; dumped = false })
          else ok (record {
            cons = retreat c;
            sent = consputc backspace;
            woken = false;
            dumped = false;
          }))
        (ready c, but_last (line c))
rubout-Ends c h = elim (Bool-cases (c.e == c.w)) [
  | inl e ↦
      let empty_line = line-empty c (ground (arith, e)) h.words.1 in
      rw e (
        record { cons = c; sent = []; woken = false; dumped = false },
        refl,
        h,
        ap (λ l. (ready c, l)) (empty_line ∙ ap but_last (sym empty_line)),
      )
  | inr e ↦ rw e (
    record { cons = retreat c; sent = consputc backspace; woken = false; dumped = false },
    refl,
    IsCons-retreat c h e,
    ap (λ l. (ready c, l)) (line-but_last c h e),
  )
]

held-lengths :
    (c : Cons)
    → IsCons c
    → (held c ≡ length (ready c) + length (line c)) × (held c ≡ ready_count c + line_count c)
held-lengths c h = (
  omega (
    arith,
    h.words.0,
    h.words.1,
    h.words.2,
    h.fits,
    length-slots input_buf_size c.bytes c.r (ready_count c),
    length-slots input_buf_size c.bytes c.w (line_count c),
  ),
  omega (arith, h.words.0, h.words.1, h.words.2, h.fits),
)

-- the last two branches
typed-Ends :
    (ch : ℕ) (c : Cons)
    → IsCons c
    → Ends
        (if not (ch == 0) && ltb (held c) input_buf_size
          then ok (enter ch c)
          else ok (record { cons = c; sent = []; woken = false; dumped = false }))
        (if not (ch == 0) && ltb (length (ready c) + length (line c)) input_buf_size
          then typed (if ch == 13 then 10 else ch) (view c)
          else view c)
typed-Ends ch c h =
    rw (sym (held-lengths c h).0)
      (elim (Bool-cases (not (ch == 0) && ltb (held c) input_buf_size)) [
        | inl q ↦ rw q (enter-Ends ch c h (ground (arith, q, (held-lengths c h).1)))
        | inr q ↦
            rw q (record { cons = c; sent = []; woken = false; dumped = false }, refl, h, refl)
      ])

-- On a well-formed console, `consoleintr` ends and does what the editor does: Ctrl-U empties the
-- line that is typed, a backspace or delete takes its last character, and any other character but
-- 0 and Ctrl-P is put behind it while there is room; a newline, Ctrl-D or a full buffer hands the
-- line to the readers. The console that it leaves is well-formed.
pub consoleintr_lem : (ch : ℕ) (c : Cons) → IsCons c → Ends (consoleintr ch c) (edit ch (view c))
unfolding consoleintr
consoleintr_lem ch c h = elim (Bool-cases (ch == 16)) [
  | inl e ↦ rw e (record { cons = c; sent = []; woken = false; dumped = true }, refl, h, refl)
  | inr e ↦ elim (Bool-cases (ch == 21)) [
    | inl f ↦ rw (e, f) (killed_line-Ends c h)
    | inr f ↦ elim (Bool-cases (ch == 8 || ch == 127)) [
      | inl g ↦ rw (e, f, g) (rubout-Ends c h)
      | inr g ↦ rw (e, f, g) (typed-Ends ch c h)
    ]
  ]
]
