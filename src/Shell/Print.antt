-- ===== src/Shell/Print.antt =====
-- user/sh.c: the text of a command, at each level of the parser.
use paddle_os.Prelude.{ltb, length, ℕ, Bool, true, ◌&&◌, List, [], ◌∷◌, ◌++◌}
use paddle_os.Shell.{
  Cmd, Redirs, Redirection, input, output, append, exec, redir, pipe, list, back, max_args,
}
use paddle_os.Shell.Tokens.{is_word}

abbrev pub arrow : Redirection → List ℕ
arrow input = b'<' ∷ 32 ∷ []
arrow output = b'>' ∷ 32 ∷ []
arrow append = b'>' ∷ b'>' ∷ 32 ∷ []

abbrev pub redir_text : List ℕ × Redirection → List ℕ
redir_text (file, r) = arrow r ++ (file ++ 32 ∷ [])

unfoldable pub redirs_text : Redirs → List ℕ
redirs_text [] = []
redirs_text (r ∷ rs) = redir_text r ++ redirs_text rs

unfoldable pub words_text : List (List ℕ) → List ℕ
words_text [] = []
words_text (w ∷ ws) = w ++ 32 ∷ words_text ws

-- `( … )`
abbrev pub block : List ℕ → List ℕ
block t = b'(' ∷ 32 ∷ t ++ b')' ∷ 32 ∷ []

abbrev pub piped : (left right : List ℕ) → List ℕ
piped l r = l ++ b'|' ∷ 32 ∷ r

abbrev pub listed : (left right : List ℕ) → List ℕ
listed l r = l ++ b';' ∷ 32 ∷ r

abbrev pub in_back : List ℕ → List ℕ
in_back t = t ++ b'&' ∷ 32 ∷ []

-- A command as `parseexec`, `parsepipe`, `parseline` without its lists and `parseline` read it. Where
-- a level does not have the command, it stands in parentheses.
pub record Texts : Type 0 where
  pub as_exec : List ℕ
  pub as_pipe : List ℕ
  pub as_item : List ℕ
  pub as_line : List ℕ

unfoldable pub texts : Cmd → Texts
texts (exec argv) =
    let t = words_text argv in record { as_exec = t; as_pipe = t; as_item = t; as_line = t }
texts (redir c file r) =
    let t = (texts c).as_exec ++ redir_text (file, r) in
    record { as_exec = t; as_pipe = t; as_item = t; as_line = t }
texts (pipe l r) =
    let t = piped (texts l).as_exec (texts r).as_pipe in
    record { as_exec = block t; as_pipe = t; as_item = t; as_line = t }
texts (list l r) =
    let t = listed (texts l).as_item (texts r).as_line in
    record { as_exec = block t; as_pipe = block t; as_item = block t; as_line = t }
texts (back c) =
    let t = in_back (texts c).as_item in
    record { as_exec = block t; as_pipe = block t; as_item = t; as_line = t }

abbrev pub print : Cmd → List ℕ
print c = (texts c).as_line

unfoldable pub all_words : List (List ℕ) → Bool
all_words [] = true
all_words (w ∷ ws) = is_word w && all_words ws

-- Arguments and file names are words, and a command has fewer than `MAXARGS` arguments.
unfoldable pub is_printable : Cmd → Bool
is_printable (exec argv) = all_words argv && ltb (length argv) max_args
is_printable (redir c file r) = is_word file && is_printable c
is_printable (pipe l r) = is_printable l && is_printable r
is_printable (list l r) = is_printable l && is_printable r
is_printable (back c) = is_printable c
