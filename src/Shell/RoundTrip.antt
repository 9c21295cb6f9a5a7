-- ===== src/Shell/RoundTrip.antt =====
-- user/sh.c: the parser reads back the text of a command.
use paddle_os.Prelude.{
  length, length-append, ℕ, suc, ◌+◌, ◌*◌, ◌≤◌, ◌≡◌, refl, true, List, [], ◌∷◌, append-nil, arith,
  ok,
}
use paddle_os.Shell.{Cmd, exec, redir, pipe, list, back, parsecmd, peek, skip_spaces}
use paddle_os.Shell.Print.{
  texts, print, Texts, is_printable, block, piped, in_back, listed, words_text,
}
use paddle_os.Shell.Levels.{
  ReadsExec, ReadsPipe, ReadsItem, ReadsLine, exec-ReadsExec, redir-ReadsExec, block-ReadsExec,
  exec-ReadsPipe, pipe-ReadsPipe, pipe-ReadsItem, back-ReadsItem, item-ReadsLine, list-ReadsLine,
}

-- Every level reads its text of the command.
record Reads (x : Texts) (c : Cmd) : Type 0 where
  reads_exec : ReadsExec x.as_exec c
  reads_pipe : ReadsPipe x.as_pipe c
  backs : ℕ
  backs_fit : backs ≤ length x.as_item
  reads_item : ReadsItem backs x.as_item c
  reads_line : ReadsLine x.as_line c

-- a command that `parseexec` reads as it stands
exec-Reads :
    (t : List ℕ) (c : Cmd)
    → ReadsExec t c
    → Reads (record { as_exec = t; as_pipe = t; as_item = t; as_line = t }) c
exec-Reads t c h =
    let p = exec-ReadsPipe t c h in
    let i = pipe-ReadsItem t c p in
    record {
      reads_exec = h;
      reads_pipe = p;
      backs = 0;
      backs_fit = omega arith;
      reads_item = i;
      reads_line = item-ReadsLine 0 t c (omega arith) i;
    }

texts-Reads : (c : Cmd) → is_printable c ≡ true → Reads (texts c) c
unfolding texts is_printable
texts-Reads (exec argv) h =
    exec-Reads (words_text argv) (exec argv)
      (exec-ReadsExec argv (ground (arith, h)) (ground (arith, h)))
texts-Reads (redir c file r) h = exec-Reads _ (redir c file r) (
    redir-ReadsExec (texts c).as_exec c file r (ground (arith, h))
      (texts-Reads c (ground (arith, h))).reads_exec)
texts-Reads (pipe l r) h =
    let t = piped (texts l).as_exec (texts r).as_pipe in
    let p =
      pipe-ReadsPipe _ _ l r (texts-Reads l (ground (arith, h))).reads_exec
        (texts-Reads r (ground (arith, h))).reads_pipe in
    let i = pipe-ReadsItem t (pipe l r) p in
    let n = item-ReadsLine 0 t (pipe l r) (omega arith) i in
    record {
      reads_exec = block-ReadsExec t (pipe l r) n;
      reads_pipe = p;
      backs = 0;
      backs_fit = omega arith;
      reads_item = i;
      reads_line = n;
    }
texts-Reads (list l r) h =
    let t = listed (texts l).as_item (texts r).as_line in
    let rl = texts-Reads l (ground (arith, h)) in
    let n =
      list-ReadsLine rl.backs _ _ l r rl.backs_fit rl.reads_item
        (texts-Reads r (ground (arith, h))).reads_line in
    let x = block-ReadsExec t (list l r) n in
    let p = exec-ReadsPipe (block t) (list l r) x in
    record {
      reads_exec = x;
      reads_pipe = p;
      backs = 0;
      backs_fit = omega arith;
      reads_item = pipe-ReadsItem (block t) (list l r) p;
      reads_line = n;
    }
texts-Reads (back c) h =
    let t = in_back (texts c).as_item in
    let rc = texts-Reads c h in
    let i = back-ReadsItem rc.backs (texts c).as_item c rc.reads_item in
    let fit : suc rc.backs ≤ length t =
      omega (arith, rc.backs_fit, length-append (texts c).as_item (b'&' ∷ 32 ∷ [])) in
    let n = item-ReadsLine (suc rc.backs) t (back c) fit i in
    let x = block-ReadsExec t (back c) n in
    record {
      reads_exec = x;
      reads_pipe = exec-ReadsPipe (block t) (back c) x;
      backs = suc rc.backs;
      backs_fit = fit;
      reads_item = i;
      reads_line = n;
    }

-- A command whose words have no white space and no symbols, with fewer than ten arguments each, is
-- printed with a space behind each token and parentheses where a pipe, a list or a command in the
-- background stands inside another command. `parsecmd` reads exactly the same command back from the
-- text: `;`, `&`, `|` and the redirections bind as they were printed. It ends without a panic.
pub parsecmd-print : (c : Cmd) → is_printable c ≡ true → parsecmd (print c) ≡ ok c
unfolding parsecmd peek skip_spaces
parsecmd-print c h =
    let all = (texts-Reads c h).reads_line (4 * length (print c) + 4) [] (omega arith) refl in
    rw (rw append-nil at all) refl
