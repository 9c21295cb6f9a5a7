-- ===== src/Console/Read.antt =====
-- `consoleread` of kernel/console.c against a reader of a list.
use paddle_os.Prelude.{
  ltb, ◌==◌, if◌then◌else◌, Bool-cases, get_or, ℕ, zero, suc, ◌+◌, ◌%◌, ◌^◌, ◌≡◌, refl, ap, ◌∙◌,
  inl, inr, Bool, true, false, not, List, [], ◌∷◌, arith,
}
use paddle_os.Ring.{slots, slots-same_place, IsRing-128}
use paddle_os.Console.{Cons, input_buf_size, ReadEnd, finished, refused, asleep, consoleread}
use paddle_os.Console.Lines.{ready_count, ready, line, IsCons}

-- The reader takes characters off the front of `q`, up to and with a newline. Ctrl-D ends the read;
-- it is left for the next one where bytes were copied before.
unfoldable pub read_list :
    (copyout : ℕ → ℕ → Bool) (killed : Bool) (dst i left : ℕ) → List ℕ → ReadEnd × List ℕ
read_list copyout killed dst i zero q = (finished i, q)
read_list copyout killed dst i (suc left) [] = (if killed then refused else asleep i, [])
read_list copyout killed dst i (suc left) (ch ∷ q) =
    let rest = read_list copyout killed dst (suc i) left q in
    if ch == 4
    then (finished i, if ltb 0 i then ch ∷ q else q)
    else if not (copyout (dst + i) ch)
    then (finished i, q)
    else if ch == 10
    then (finished (suc i), q)
    else rest

-- The run `s` from `c` is the reader's `v`; the line that is typed is as before.
pub record Reads (c : Cons) (s : ReadEnd × Cons) (v : ReadEnd × List ℕ) : Type 0 where
  pub stop : s.0 ≡ v.0
  pub taken : ready s.1 ≡ v.1
  pub same_line : line s.1 ≡ line c
  pub valid : IsCons s.1

-- `cons.r++`
abbrev advance : Cons → Cons
advance c = record c { r = (c.r + 1) % 2 ^ 32 }

ready-advance :
    (c : Cons)
    → IsCons c
    → (c.r == c.w) ≡ false
    → ready c ≡ get_or c.bytes (c.r % input_buf_size) 0 ∷ ready (advance c)
unfolding slots
ready-advance c h e =
    ap (slots input_buf_size c.bytes c.r) {y = suc (ready_count (advance c))}
      (ground (arith, h.words.0, h.words.1, e))
    ∙ ap (λ l. get_or c.bytes (c.r % input_buf_size) 0 ∷ l)
        (slots-same_place input_buf_size IsRing-128 c.bytes (suc c.r) (advance c).r
          (ready_count (advance c)) (omega arith))

IsCons-advance : (c : Cons) → IsCons c → (c.r == c.w) ≡ false → IsCons (advance c)
IsCons-advance c h e = record {
  words = (omega arith, h.words.1, h.words.2);
  size = h.size;
  fits = ground (arith, h.words.0, h.words.1, h.fits, e);
  no_newline = h.no_newline;
}

ready-empty : (c : Cons) → IsCons c → (c.r == c.w) ≡ true → ready c ≡ []
unfolding slots
ready-empty c h e = ap (slots input_buf_size c.bytes c.r) {y = 0} (ground (arith, h.words.0, e))

one_taken :
    (c : Cons)
    → IsCons c
    → (c.r == c.w) ≡ false
    → (stop : ReadEnd) → Reads c (stop, advance c) (stop, ready (advance c))
one_taken c h e stop = record {
  stop = refl;
  taken = refl;
  same_line = refl;
  valid = IsCons-advance c h e;
}

-- A run of `consoleread` on a well-formed console reads the complete lines as the reader does, and
-- leaves a well-formed console with the line that is typed as before.
pub consoleread_lem :
    (copyout : ℕ → ℕ → Bool) (killed : Bool) (dst i left : ℕ) (c : Cons)
    → IsCons c
    → Reads c
        (consoleread copyout killed dst i left c)
        (read_list copyout killed dst i left (ready c))
unfolding consoleread read_list
consoleread_lem copyout killed dst i zero c h = record {
  stop = refl;
  taken = refl;
  same_line = refl;
  valid = h;
}
consoleread_lem copyout killed dst i (suc left) c h = elim (Bool-cases (c.r == c.w)) [
  | inl e ↦
      rw (e, ready-empty c h e)
        (record { stop = refl; taken = ready-empty c h e; same_line = refl; valid = h })
  | inr e ↦
      rw (e, ready-advance c h e)
        (elim (Bool-cases (get_or c.bytes (c.r % input_buf_size) 0 == 4)) [
          | inl f ↦ elim (Bool-cases (ltb 0 i)) [
            | inl z ↦
                rw (f, z)
                  (record { stop = refl; taken = ready-advance c h e; same_line = refl; valid = h })
            | inr z ↦ rw (f, z) (one_taken c h e (finished i))
          ]
          | inr f ↦
              elim (Bool-cases
                (not (copyout (dst + i) (get_or c.bytes (c.r % input_buf_size) 0)))) [
                  | inl g ↦ rw (f, g) (one_taken c h e (finished i))
                  | inr g ↦ elim (Bool-cases (get_or c.bytes (c.r % input_buf_size) 0 == 10)) [
                    | inl n ↦ rw (f, g, n) (one_taken c h e (finished (suc i)))
                    | inr n ↦
                        let rest =
                          consoleread_lem copyout killed dst (suc i) left (advance c)
                            (IsCons-advance c h e) in
                        rw (f, g, n)
                          (record {
                            stop = rest.stop;
                            taken = rest.taken;
                            same_line = rest.same_line;
                            valid = rest.valid;
                          })
                  ]
                ]
        ])
]
