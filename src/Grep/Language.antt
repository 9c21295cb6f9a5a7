-- ===== src/Grep/Language.antt =====
-- The language of a pattern of user/grep.c, as a relation, against the matcher.
use paddle_os.Prelude.{
  ◌==◌, Bool-cases, All, ℕ, ◌≡◌, refl, sym, transport, ap, ◌∙◌, ◌↔◌, ◌⊎◌, inl, inr, Bool, true,
  false, not, ◌&&◌, List, [], ◌∷◌, ◌++◌, arith,
}
use paddle_os.Grep.{matchstar, matchone, is_empty, matchhere, anywhere, find}

-- what one pattern byte stands for
abbrev pub OneOf : ℕ → ℕ → Type 0
OneOf c t = (c ≡ b'.') ⊎ (c ≡ t)

abbrev pub starts_star : List ℕ → Bool
starts_star [] = false
starts_star (d ∷ re) = d == b'*'

abbrev pub starts_caret : List ℕ → Bool
starts_caret [] = false
starts_caret (d ∷ re) = d == b'^'

-- `c` in front of `re` stands for itself: it is neither starred nor an end mark.
abbrev pub plain : ℕ → List ℕ → Bool
plain c re = not (starts_star re) && not ((c == b'$') && is_empty re)

-- A beginning of the text matches the pattern.
pub data Here : (re text : List ℕ) → Type 0 where
  done : {text : List ℕ} → Here [] text
  end : {c : ℕ} → c ≡ b'$' → Here (c ∷ []) []
  one :
      {c t : ℕ} {re text : List ℕ}
      → plain c re ≡ true
      → OneOf c t
      → Here re text
      → Here (c ∷ re) (t ∷ text)
  star :
      {c d : ℕ} {re text : List ℕ} (pre rest : List ℕ)
      → d ≡ b'*'
      → All (OneOf c) pre
      → text ≡ pre ++ rest
      → Here re rest
      → Here (c ∷ d ∷ re) text

-- `find`: a pattern with `^` in front matches the beginning, any other matches anywhere.
pub data Finds : (re text : List ℕ) → Type 0 where
  anchored : {c : ℕ} {re text : List ℕ} → c ≡ b'^' → Here re text → Finds (c ∷ re) text
  floating :
      {re text : List ℕ} (pre rest : List ℕ)
      → starts_caret re ≡ false
      → text ≡ pre ++ rest
      → Here re rest
      → Finds re text

module _ (here : List ℕ → Bool) (H : List ℕ → Type 0) (c : ℕ) where
  matchstar_sound :
      ((text : List ℕ) → here text ≡ true → H text)
      → (text : List ℕ) → matchstar here c text ≡ true
      → (pre : List ℕ) × (rest : List ℕ) × All (OneOf c) pre × (text ≡ pre ++ rest) × H rest
  unfolding matchstar
  matchstar_sound s [] h = ([], [], tt, refl, s [] h)
  matchstar_sound s (t ∷ text) h = elim (Bool-cases (here (t ∷ text))) [
    | inl e ↦ ([], t ∷ text, tt, refl, s (t ∷ text) e)
    | inr e ↦
        let (pre, rest, all, split, r) = matchstar_sound s text (ground (arith, e)) in
        (t ∷ pre, rest, (ground (arith, e), all), ap (λ l. t ∷ l) split, r)
  ]

  matchstar_complete :
      (pre rest : List ℕ)
      → All (OneOf c) pre
      → here rest ≡ true
      → matchstar here c (pre ++ rest) ≡ true
  unfolding matchstar
  matchstar_complete [] [] all h = h
  matchstar_complete [] (t ∷ rest) all h = rw h
  matchstar_complete (t ∷ pre) rest all h =
      ground (arith, all.0, matchstar_complete pre rest all.1 h)

matchone_sound :
    (next : List ℕ → Bool) (c : ℕ) (text : List ℕ)
    → matchone next c text ≡ true
    → (t : ℕ) × (rest : List ℕ) × (text ≡ t ∷ rest) × OneOf c t × (next rest ≡ true)
unfolding matchone
matchone_sound next c [] h = cc
matchone_sound next c (t ∷ text) h = (t, text, refl, ground arith, ground arith)

matchone_complete :
    (next : List ℕ → Bool) (c t : ℕ) (text : List ℕ)
    → OneOf c t
    → next text ≡ true
    → matchone next c (t ∷ text) ≡ true
unfolding matchone
matchone_complete next c t text o h = ground arith

matchhere_sound : (re text : List ℕ) → matchhere re text ≡ true → Here re text
unfolding matchhere
matchhere_sound [] text h = done
matchhere_sound (c ∷ []) [] h = end (ground arith)
matchhere_sound (c ∷ []) (t ∷ text) h = one (ground arith) (ground arith) done
matchhere_sound (c ∷ d ∷ re) text h = elim (Bool-cases (d == b'*')) [
  | inl e ↦
      let (pre, rest, all, split, r) =
        matchstar_sound (matchhere re) (Here re) c (matchhere_sound re) text (ground (arith, e)) in
      star pre rest (ground (arith, e)) all split r
  | inr e ↦
      let (t, rest, split, o, r) = matchone_sound (matchhere (d ∷ re)) c text (ground (arith, e)) in
      transport (λ i. Here (c ∷ d ∷ re) (sym split i))
        (one (ground (arith, e)) o (matchhere_sound (d ∷ re) rest r))
]

matchhere_complete : (re text : List ℕ) → Here re text → matchhere re text ≡ true
unfolding matchhere
matchhere_complete re text done = refl
matchhere_complete re text (end e) = ground arith
matchhere_complete re text (one {c} {t} {re = []} {text = rest} p o h) =
    ground (arith, p, o, matchone_complete (matchhere []) c t rest o refl)
matchhere_complete re text (one {c} {t} {re = d ∷ re'} {text = rest} p o h) = ground (
  arith,
  p,
  matchone_complete (matchhere (d ∷ re')) c t rest o (matchhere_complete (d ∷ re') rest h),
)
matchhere_complete re text (star {c} {d} {re = re'} pre rest e all split h) = ground (
  arith,
  e,
  ap (matchstar (matchhere re') c) split,
  matchstar_complete (matchhere re') (Here re') c pre rest all (matchhere_complete re' rest h),
)

anywhere_sound :
    (here : List ℕ → Bool) (text : List ℕ)
    → anywhere here text ≡ true
    → (pre : List ℕ) × (rest : List ℕ) × (text ≡ pre ++ rest) × (here rest ≡ true)
unfolding anywhere
anywhere_sound here [] h = ([], [], refl, h)
anywhere_sound here (t ∷ text) h = elim (Bool-cases (here (t ∷ text))) [
  | inl e ↦ ([], t ∷ text, refl, e)
  | inr e ↦
      let (pre, rest, split, r) = anywhere_sound here text (ground (arith, e)) in
      (t ∷ pre, rest, ap (λ l. t ∷ l) split, r)
]

anywhere_complete :
    (here : List ℕ → Bool) (pre rest : List ℕ)
    → here rest ≡ true
    → anywhere here (pre ++ rest) ≡ true
unfolding anywhere
anywhere_complete here [] [] h = h
anywhere_complete here [] (t ∷ rest) h = rw h
anywhere_complete here (t ∷ pre) rest h = ground (arith, anywhere_complete here pre rest h)

find_sound : (re text : List ℕ) → find re text ≡ true → Finds re text
unfolding find
find_sound [] text h =
    let (pre, rest, split, r) = anywhere_sound (matchhere []) text h in
    floating pre rest refl split (matchhere_sound [] rest r)
find_sound (c ∷ re) text h = elim (Bool-cases (c == b'^')) [
  | inl e ↦ anchored (ground (arith, e)) (matchhere_sound re text (ground (arith, e)))
  | inr e ↦
      let (pre, rest, split, r) = anywhere_sound (matchhere (c ∷ re)) text (ground (arith, e)) in
      floating pre rest e split (matchhere_sound (c ∷ re) rest r)
]

find_complete : (re text : List ℕ) → Finds re text → find re text ≡ true
unfolding find
find_complete re text (anchored {re = re'} e h) = ground (arith, e, matchhere_complete re' text h)
find_complete [] text (floating pre rest n split h) =
    ap (anywhere (matchhere [])) split
    ∙ anywhere_complete (matchhere []) pre rest (matchhere_complete [] rest h)
find_complete (c ∷ re) text (floating pre rest n split h) = ground (
  arith,
  n,
  ap (anywhere (matchhere (c ∷ re))) split,
  anywhere_complete (matchhere (c ∷ re)) pre rest (matchhere_complete (c ∷ re) rest h),
)

-- `match` finds the pattern exactly in the texts of its language: a pattern with `^` in front
-- matches at the beginning of the text and any other at some place, where `.` stands for any byte,
-- a starred byte for any number of such bytes, a last `$` for the end of the text.
pub find_lem : (re text : List ℕ) → (find re text ≡ true) ↔ Finds re text
find_lem re text = (find_sound re text, find_complete re text)
