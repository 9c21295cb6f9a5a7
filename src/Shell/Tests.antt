-- ===== src/Shell/Tests.antt =====
-- user/sh.c: the parser on commands.
use paddle_os.Prelude.{◌≡◌, refl, [], ◌∷◌, ok, panic}
use paddle_os.Shell.{
  Cmd, exec, redir, pipe, list, back, input, output, append, parsecmd, strchr, skip_spaces, word,
  greater, token_at, gettoken, peek, wrap, parseredirs, parseargs, parsebacks, parseline, parsepipe,
  parseblock, parseexec,
}
use paddle_os.Shell.Print.{print, is_printable, all_words}
use paddle_os.Shell.Tokens.{all_ordinary}
use paddle_os.Shell.RoundTrip.{parsecmd-print}

-- `l|w>o;c` without white space, and `l | w > o ; c` with it
abbrev piped_and_listed : Cmd
piped_and_listed =
    list (pipe (exec ((108 ∷ []) ∷ [])) (redir (exec ((119 ∷ []) ∷ [])) (111 ∷ []) output))
      (exec ((99 ∷ []) ∷ []))

no_spaces : parsecmd (108 ∷ b'|' ∷ 119 ∷ b'>' ∷ 111 ∷ b';' ∷ 99 ∷ []) ≡ ok piped_and_listed
unfolding strchr skip_spaces word greater token_at gettoken peek wrap parseredirs parseargs
    parsebacks parseline parsepipe parseblock parseexec parsecmd
no_spaces = refl

spaces :
    parsecmd (32 ∷ 108 ∷ 9 ∷ b'|' ∷ 119 ∷ 32 ∷ b'>' ∷ 32 ∷ 111 ∷ b';' ∷ 32 ∷ 99 ∷ 10 ∷ [])
    ≡ ok piped_and_listed
unfolding strchr skip_spaces word greater token_at gettoken peek wrap parseredirs parseargs
    parsebacks parseline parsepipe parseblock parseexec parsecmd
spaces = refl

-- `(l;w)>>o&`
in_background :
    parsecmd (b'(' ∷ 108 ∷ b';' ∷ 119 ∷ b')' ∷ b'>' ∷ b'>' ∷ 111 ∷ b'&' ∷ [])
    ≡ ok (back (redir (list (exec ((108 ∷ []) ∷ [])) (exec ((119 ∷ []) ∷ []))) (111 ∷ []) append))
unfolding strchr skip_spaces word greater token_at gettoken peek wrap parseredirs parseargs
    parsebacks parseline parsepipe parseblock parseexec parsecmd
in_background = refl

-- `l>`, `(l` and `l)` are syntax errors.
no_file : parsecmd (108 ∷ b'>' ∷ []) ≡ panic
unfolding strchr skip_spaces word greater token_at gettoken peek wrap parseredirs parseargs
    parsebacks parseline parsepipe parseblock parseexec parsecmd
no_file = refl

open_block : parsecmd (b'(' ∷ 108 ∷ []) ≡ panic
unfolding strchr skip_spaces word greater token_at gettoken peek wrap parseredirs parseargs
    parsebacks parseline parsepipe parseblock parseexec parsecmd
open_block = refl

leftover : parsecmd (108 ∷ b')' ∷ []) ≡ panic
unfolding strchr skip_spaces word greater token_at gettoken peek wrap parseredirs parseargs
    parsebacks parseline parsepipe parseblock parseexec parsecmd
leftover = refl

-- `; w` behind an empty command
empty_command : parsecmd (b';' ∷ 119 ∷ []) ≡ ok (list (exec []) (exec ((119 ∷ []) ∷ [])))
unfolding strchr skip_spaces word greater token_at gettoken peek wrap parseredirs parseargs
    parsebacks parseline parsepipe parseblock parseexec parsecmd
empty_command = refl

-- a pipe into a block in the background, with redirections on both sides
abbrev nested : Cmd
nested =
    pipe
      (redir (redir (exec ((108 ∷ 115 ∷ []) ∷ (45 ∷ 108 ∷ []) ∷ [])) (105 ∷ []) input) (111 ∷ [])
        append)
      (redir (back (pipe piped_and_listed (exec ((119 ∷ []) ∷ [])))) (102 ∷ []) output)

parsecmd-print_example : parsecmd (print nested) ≡ ok nested
parsecmd-print_example =
    parsecmd-print nested (unfold is_printable all_words all_ordinary strchr in refl)
