-- ===== src/Grep/Tests.antt =====
-- The matcher of user/grep.c at concrete patterns and texts.
use paddle_os.Prelude.{ℕ, ◌≡◌, refl, ◌↔◌, true, List, [], ◌∷◌}
use paddle_os.Grep.{find, matchhere, matchstar, matchone, anywhere}
use paddle_os.Grep.Language.{Finds, find_lem}

abbrev pattern_text : List ℕ
pattern_text = b'b' ∷ b'*' ∷ b'c' ∷ b'$' ∷ []

abbrev line : List ℕ
line = b'a' ∷ b'b' ∷ b'b' ∷ b'c' ∷ []

find_lem_example : (find pattern_text line ≡ true) ↔ Finds pattern_text line
find_lem_example = find_lem pattern_text line

find-line : find pattern_text line ≡ true
unfolding find matchhere matchstar matchone anywhere
find-line = refl
