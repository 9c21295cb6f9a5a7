-- ===== src/Shell/Tokens.antt =====
-- user/sh.c: what `gettoken` and `peek` read at a word, and where a command stops.
use paddle_os.Prelude.{
  ◌==◌, Bool-cases, ℕ, ◌≡◌, refl, inl, inr, Bool, true, false, not, ◌&&◌, List, [], ◌∷◌, ◌++◌,
  arith,
}
use paddle_os.Shell.{
  strchr, whitespace, symbols, skip_spaces, word, gettoken, token_at, starts_with,
}

-- a byte that words are made of
abbrev pub ordinary : ℕ → Bool
ordinary c = not (c == 0) && (not (strchr whitespace c) && not (strchr symbols c))

unfoldable pub all_ordinary : List ℕ → Bool
all_ordinary [] = true
all_ordinary (c ∷ w) = ordinary c && all_ordinary w

abbrev pub is_word : List ℕ → Bool
is_word [] = false
is_word (c ∷ w) = all_ordinary (c ∷ w)

-- the input starts with a byte that is neither white space nor `<` nor `>`, or has ended
abbrev pub is_clean : List ℕ → Bool
is_clean [] = true
is_clean (c ∷ s) = not (strchr whitespace c) && not (strchr (b'<' ∷ b'>' ∷ []) c)

pub skip_spaces-skip_spaces : (s : List ℕ) → skip_spaces (skip_spaces s) ≡ skip_spaces s
unfolding skip_spaces
skip_spaces-skip_spaces [] = refl
skip_spaces-skip_spaces (c ∷ s) = elim (Bool-cases (strchr whitespace c)) [
  | inl e ↦ ground (arith, e, skip_spaces-skip_spaces s)
  | inr e ↦ ground (arith, e)
]

pub skip_spaces-clean : (s : List ℕ) → is_clean s ≡ true → skip_spaces s ≡ s
unfolding skip_spaces
skip_spaces-clean [] h = refl
skip_spaces-clean (c ∷ s) h = ground (arith, h)

word-append : (w s : List ℕ) → all_ordinary w ≡ true → word (w ++ 32 ∷ s) ≡ (w, 32 ∷ s)
unfolding word all_ordinary strchr
word-append [] s h = refl
word-append (c ∷ w) s h = ground (arith, h, word-append w s)

-- a word, and the white space behind it
pub gettoken-word :
    (w s : List ℕ) → is_word w ≡ true → gettoken (w ++ 32 ∷ s) ≡ (b'a', w, skip_spaces s)
unfolding gettoken token_at skip_spaces
gettoken-word [] s h = absurd (ground (arith, h))
gettoken-word (c ∷ w) s h = unfold all_ordinary strchr in ground (arith, h, word-append (c ∷ w) s h)

pub is_clean-word : (w s : List ℕ) → is_word w ≡ true → is_clean (w ++ s) ≡ true
unfolding all_ordinary strchr
is_clean-word [] s h = absurd (ground (arith, h))
is_clean-word (c ∷ w) s h = ground (arith, h)

-- no symbol is the start of a word
pub starts_with-word :
    (toks w s : List ℕ)
    → is_word w ≡ true
    → ((c : ℕ) → strchr toks c ≡ true → strchr symbols c ≡ true)
    → starts_with toks (w ++ s) ≡ false
unfolding all_ordinary
starts_with-word toks [] s h k = absurd (ground (arith, h))
starts_with-word toks (c ∷ w) s h k = ground (arith, h, k c)

-- the rest of the input is empty, or starts with one of the symbols
abbrev pub stops : (toks : List ℕ) → List ℕ → Bool
stops toks [] = true
stops toks (c ∷ s) = strchr toks c
