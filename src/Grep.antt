-- ===== src/Grep.antt =====
-- user/grep.c: the pattern matcher of grep. A C string is the list of its bytes before the
-- terminator, so the empty list is a pointer to `'\0'`; reading `re[1]` happens only behind a byte
-- that is not the terminator. A `char` is compared for equality alone, so its sign does not matter.
pub mod Language
mod Tests
use paddle_os.Prelude.{◌==◌, if◌then◌else◌, ℕ, Bool, true, false, ◌&&◌, ◌||◌, List, [], ◌∷◌}

-- `do { if (here(text)) return 1; } while (*text != '\0' && (*text++ == c || c == '.'));`
unfoldable pub matchstar : (List ℕ → Bool) → (c : ℕ) → List ℕ → Bool
matchstar here c [] = here []
matchstar here c (t ∷ text) = here (t ∷ text) || ((t == c || c == b'.') && matchstar here c text)

-- `if (*text != '\0' && (re[0] == '.' || re[0] == *text)) return next(text + 1); return 0;`
unfoldable pub matchone : (List ℕ → Bool) → (c : ℕ) → List ℕ → Bool
matchone next c [] = false
matchone next c (t ∷ text) = (c == b'.' || c == t) && next text

abbrev pub is_empty : List ℕ → Bool
is_empty [] = true
is_empty (t ∷ text) = false

unfoldable pub matchhere : List ℕ → List ℕ → Bool
unfolding matchstar matchone
matchhere [] text = true
matchhere (c ∷ []) text = if c == b'$' then is_empty text else matchone (matchhere []) c text
matchhere (c ∷ d ∷ re) text =
    if d == b'*' then matchstar (matchhere re) c text else matchone (matchhere (d ∷ re)) c text

-- `do { if (here(text)) return 1; } while (*text++ != '\0');`
unfoldable pub anywhere : (List ℕ → Bool) → List ℕ → Bool
anywhere here [] = here []
anywhere here (t ∷ text) = here (t ∷ text) || anywhere here text

-- `match`, whose name is `find` here
unfoldable pub find : (re text : List ℕ) → Bool
unfolding matchhere anywhere
find [] text = anywhere (matchhere []) text
find (c ∷ re) text = if c == b'^' then matchhere re text else anywhere (matchhere (c ∷ re)) text
