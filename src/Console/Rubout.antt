-- ===== src/Console/Rubout.antt =====
-- Characters taken back from the line that is typed in kernel/console.c.
use paddle_os.Prelude.{
  ◌==◌, Bool-cases, get_or, All, ℕ, zero, suc, ◌%◌, ◌<◌, ◌≡◌, refl, sym, transport, ap, ◌∙◌, ◌≢◌,
  inl, inr, false, List, [], ◌∷◌, ◌++◌, arith, ok,
}
use paddle_os.Console.{Cons, input_buf_size, consputc, backspace, retreat, kill_line}
use paddle_os.Console.Lines.{line_count, line, IsCons, All-parts, line-last}
use paddle_os.Console.Editor.{but_last}

but_last-append : (xs : List ℕ) (x : ℕ) → but_last (xs ++ (x ∷ [])) ≡ xs
but_last-append [] x = refl
but_last-append (y ∷ []) x = refl
but_last-append (y ∷ z ∷ xs) x = ap (λ l. y ∷ l) (but_last-append (z ∷ xs) x)

line-retreat :
    (c : Cons) → IsCons c → (c.e == c.w) ≡ false → line_count c ≡ suc (line_count (retreat c))
line-retreat c h e = ground (arith, h.words.0, h.words.1, h.words.2, e)

pub IsCons-retreat : (c : Cons) → IsCons c → (c.e == c.w) ≡ false → IsCons (retreat c)
IsCons-retreat c h e = record {
  words = (h.words.0, h.words.1, omega arith);
  size = h.size;
  fits = omega (arith, h.fits, line-retreat c h e);
  no_newline =
      (All-parts (λ x. x ≢ 10) (line (retreat c))
        (get_or c.bytes ((retreat c).e % input_buf_size) 0 ∷ [])
        (transport
          (λ i. All (λ x. x ≢ 10) (line-last c (line_count (retreat c)) h (line-retreat c h e) i))
          h.no_newline)).0;
}

pub line-but_last :
    (c : Cons) → IsCons c → (c.e == c.w) ≡ false → line (retreat c) ≡ but_last (line c)
line-but_last c h e =
    sym (but_last-append (line (retreat c)) (get_or c.bytes ((retreat c).e % input_buf_size) 0))
    ∙ ap but_last (sym (line-last c (line_count (retreat c)) h (line-retreat c h e)))

last-not_newline :
    (c : Cons)
    → IsCons c
    → (c.e == c.w) ≡ false
    → (get_or c.bytes ((retreat c).e % input_buf_size) 0 == 10) ≡ false
last-not_newline c h e =
    let a =
      All-parts (λ x. x ≢ 10) (line (retreat c))
        (get_or c.bytes ((retreat c).e % input_buf_size) 0 ∷ [])
        (transport
          (λ i. All (λ x. x ≢ 10) (line-last c (line_count (retreat c)) h (line-retreat c h e) i))
          h.no_newline) in
    ground (arith, a.1.0)

-- Ctrl-U takes back the whole line.
pub kill_line-ends :
    (fuel : ℕ) (c : Cons)
    → IsCons c
    → line_count c < fuel
    → (sent : List ℕ) × (kill_line fuel c ≡ ok (record c { e = c.w }, sent))
unfolding kill_line
kill_line-ends zero c h l = absurd (omega (arith, l))
kill_line-ends (suc fuel) c h l = elim (Bool-cases (c.e == c.w)) [
  | inl e ↦ ([], rw e (ap (λ q. ok (record c { e = q }, [])) {y = c.w} (ground (arith, e))))
  | inr e ↦
      let rest =
        kill_line-ends fuel (retreat c) (IsCons-retreat c h e)
          (omega (arith, l, line-retreat c h e)) in
      (consputc backspace ++ rest.0, rw (e, last-not_newline c h e, rest.1) refl)
]
