-- ===== src/Shell/Levels.antt =====
-- user/sh.c: each level of the parser on texts that the level below reads.
use paddle_os.Prelude.{
  length, length-append, ◌>>=◌, ℕ, zero, suc, ◌+◌, ◌-◌, ◌*◌, ◌≤◌, ◌<◌, ◌≡◌, refl, sym, ap, ◌∙◌,
  true, false, List, [], ◌∷◌, ◌++◌, append_assoc, arith, ok,
}
use paddle_os.Shell.{
  Cmd, Redirs, Redirection, exec, redir, pipe, list, back, wrap, max_args, strchr, skip_spaces,
  peek, parsebacks, parseline, parsepipe, parseblock, parseexec,
}
use paddle_os.Shell.Print.{
  redirs_text, redir_text, block, piped, listed, in_back, words_text, all_words,
}
use paddle_os.Shell.Tokens.{is_word, is_clean, stops}
use paddle_os.Shell.Redirs.{all_files, parseredirs-skip_spaces, parseredirs-redirs_text}
use paddle_os.Shell.Args.{exec_stops, stops-is_clean, parseexec-words_text}
use paddle_os.Shell.Stops.{
  pipe_stops, line_stops, pipe_stops-exec_stops, line_stops-pipe_stops, peek-pipe_stops,
  peek-line_stops, parsepipe-skip_spaces, parseline-skip_spaces, gettoken-symbol, bind-ok,
  parsebacks-end, parsebacks-back, peek-symbol,
}

-- With enough fuel `parseexec` reads the command off the text and the redirections behind it.
abbrev pub ReadsExec : List ℕ → Cmd → Type 0
ReadsExec t c =
    (fuel : ℕ) (rs : Redirs) (rest : List ℕ)
    → 4 * (length t + length (redirs_text rs)) + 1 < fuel
    → all_files rs ≡ true
    → stops exec_stops rest ≡ true
    → parseexec fuel (t ++ (redirs_text rs ++ rest)) ≡ ok (wrap rs c, rest)

abbrev pub ReadsPipe : List ℕ → Cmd → Type 0
ReadsPipe t c =
    (fuel : ℕ) (rest : List ℕ)
    → 4 * length t + 2 < fuel
    → stops pipe_stops rest ≡ true
    → parsepipe fuel (t ++ rest) ≡ ok (c, rest)

-- `n` is the number of `&` behind the text.
abbrev pub ReadsItem : (n : ℕ) → List ℕ → Cmd → Type 0
ReadsItem n t c =
    (fuel k g : ℕ) (rest : List ℕ)
    → k ≡ n + g
    → 4 * length t + 2 < fuel
    → stops pipe_stops rest ≡ true
    → (parsepipe fuel (t ++ rest) >>= λ r. parsebacks k r.0 r.1) ≡ parsebacks g c rest

abbrev pub ReadsLine : List ℕ → Cmd → Type 0
ReadsLine t c =
    (fuel : ℕ) (rest : List ℕ)
    → 4 * length t + 3 < fuel
    → stops line_stops rest ≡ true
    → parseline fuel (t ++ rest) ≡ ok (c, rest)

pub exec-ReadsExec :
    (ws : List (List ℕ))
    → all_words ws ≡ true
    → length ws < max_args
    → ReadsExec (words_text ws) (exec ws)
exec-ReadsExec ws h n fuel rs rest l e s =
    parseexec-words_text fuel ws rs rest (omega (arith, l)) h e n s

pub redir-ReadsExec :
    (t : List ℕ) (c : Cmd) (file : List ℕ) (r : Redirection)
    → is_word file ≡ true
    → ReadsExec t c
    → ReadsExec (t ++ redir_text (file, r)) (redir c file r)
unfolding redirs_text all_files wrap
redir-ReadsExec t c file r w h fuel rs rest l e s =
    let len = length-append t (redir_text (file, r)) in
    let all =
      h fuel ((file, r) ∷ rs) rest
        (omega (arith, l, len, length-append (redir_text (file, r)) (redirs_text rs)))
        (ground (arith, w, e)) s in
    rw (
      append_assoc t (redir_text (file, r)) (redirs_text rs ++ rest),
      sym (append_assoc (redir_text (file, r)) (redirs_text rs) rest),
      all,
    )

pub exec-ReadsPipe : (t : List ℕ) (c : Cmd) → ReadsExec t c → ReadsPipe t c
unfolding parsepipe redirs_text wrap all_files
exec-ReadsPipe t c h zero rest l s = absurd (omega (arith, l))
exec-ReadsPipe t c h (suc fuel) rest l s =
    rw (
      h fuel [] rest (omega (arith, l)) refl (pipe_stops-exec_stops rest s),
      peek-pipe_stops rest s,
    )

pub pipe-ReadsPipe :
    (t u : List ℕ) (c d : Cmd) → ReadsExec t c → ReadsPipe u d → ReadsPipe (piped t u) (pipe c d)
unfolding parsepipe redirs_text wrap all_files
pipe-ReadsPipe t u c d h k zero rest l s = absurd (omega (arith, l))
pipe-ReadsPipe t u c d h k (suc fuel) rest l s =
    let len = length-append t (b'|' ∷ 32 ∷ u) in
    let left =
      h fuel [] (b'|' ∷ 32 ∷ (u ++ rest)) (omega (arith, l, len)) refl (unfold strchr in refl) in
    let right = k fuel rest (omega (arith, l, len)) s in
    rw (
      append_assoc t (b'|' ∷ 32 ∷ u) rest,
      left,
      peek-symbol b'|' (32 ∷ (u ++ rest)) (unfold strchr in refl),
      gettoken-symbol b'|' (u ++ rest) (unfold strchr in refl),
      parsepipe-skip_spaces fuel (u ++ rest),
      right,
    )

pub pipe-ReadsItem : (t : List ℕ) (c : Cmd) → ReadsPipe t c → ReadsItem 0 t c
pipe-ReadsItem t c h fuel k g rest e l s =
    rw (h fuel rest l s) (ap (λ n. parsebacks n c rest) (omega (arith, e)))

pub back-ReadsItem :
    (n : ℕ) (t : List ℕ) (c : Cmd) → ReadsItem n t c → ReadsItem (suc n) (in_back t) (back c)
back-ReadsItem n t c h fuel k g rest e l s =
    let len = length-append t (b'&' ∷ 32 ∷ []) in
    let all =
      h fuel k (suc g) (b'&' ∷ 32 ∷ rest) (omega (arith, e)) (omega (arith, l, len))
        (unfold strchr in refl) in
    rw (append_assoc t (b'&' ∷ 32 ∷ []) rest) (all ∙ parsebacks-back g c rest)

-- an item up to a `;`, a `)` or the end
item-parsebacks :
    (n fuel : ℕ) (t rest : List ℕ) (c : Cmd)
    → n ≤ length t
    → ReadsItem n t c
    → 4 * length t + 2 < fuel
    → stops pipe_stops rest ≡ true
    → peek (b'&' ∷ []) rest ≡ (false, rest)
    → (parsepipe fuel (t ++ rest) >>= λ r. parsebacks fuel r.0 r.1) ≡ ok (c, rest)
item-parsebacks n fuel t rest c m h l s e =
    h fuel fuel (fuel - n) rest (omega (arith, m, l)) l s
    ∙ parsebacks-end (fuel - n) c rest (omega (arith, m, l)) e

pub item-ReadsLine : (n : ℕ) (t : List ℕ) (c : Cmd) → n ≤ length t → ReadsItem n t c → ReadsLine t c
unfolding parseline
item-ReadsLine n t c m h zero rest l s = absurd (omega (arith, l))
item-ReadsLine n t c m h (suc fuel) rest l s =
    let stop = peek-line_stops rest s in
    let all =
      item-parsebacks n fuel t rest c m h (omega (arith, l)) (line_stops-pipe_stops rest s)
        stop.0 in
    bind-ok (parsepipe fuel (t ++ rest)) (λ r. parsebacks fuel r.0 r.1) (c, rest) all _ ∙ rw stop.1

pub list-ReadsLine :
    (n : ℕ) (t u : List ℕ) (c d : Cmd)
    → n ≤ length t
    → ReadsItem n t c
    → ReadsLine u d
    → ReadsLine (listed t u) (list c d)
unfolding parseline
list-ReadsLine n t u c d m h k zero rest l s = absurd (omega (arith, l))
list-ReadsLine n t u c d m h k (suc fuel) rest l s =
    let len = length-append t (b';' ∷ 32 ∷ u) in
    let more = b';' ∷ 32 ∷ (u ++ rest) in
    let left =
      item-parsebacks n fuel t more c m h (omega (arith, l, len)) (unfold strchr in refl)
        (unfold peek skip_spaces strchr in refl) in
    let right = k fuel rest (omega (arith, l, len)) s in
    rw (append_assoc t (b';' ∷ 32 ∷ u) rest) (
      bind-ok (parsepipe fuel (t ++ more)) (λ r. parsebacks fuel r.0 r.1) (c, more) left _
      ∙ rw (
        peek-symbol b';' (32 ∷ (u ++ rest)) (unfold strchr in refl),
        gettoken-symbol b';' (u ++ rest) (unfold strchr in refl),
        parseline-skip_spaces fuel (u ++ rest),
        right,
      ))

parseblock-block :
    (fuel : ℕ) (t : List ℕ) (c : Cmd) (rs : Redirs) (rest : List ℕ)
    → ReadsLine t c
    → 4 * length t + 3 < fuel
    → length (redirs_text rs) < fuel
    → all_files rs ≡ true
    → is_clean rest ≡ true
    → parseblock (suc fuel) (block t ++ (redirs_text rs ++ rest)) ≡ ok (wrap rs c, rest)
unfolding parseblock
parseblock-block fuel t c rs rest h l k e s =
    let behind = redirs_text rs ++ rest in
    let inside = t ++ b')' ∷ 32 ∷ behind in
    rw (
      append_assoc t (b')' ∷ 32 ∷ []) behind,
      peek-symbol b'(' (32 ∷ inside) (unfold strchr in refl),
      gettoken-symbol b'(' inside (unfold strchr in refl),
      parseline-skip_spaces fuel inside,
      h fuel (b')' ∷ 32 ∷ behind) l (unfold strchr in refl),
      peek-symbol b')' (32 ∷ behind) (unfold strchr in refl),
      gettoken-symbol b')' behind (unfold strchr in refl),
      parseredirs-skip_spaces fuel behind,
      parseredirs-redirs_text fuel rs rest k e s,
    )

pub block-ReadsExec : (t : List ℕ) (c : Cmd) → ReadsLine t c → ReadsExec (block t) c
unfolding parseexec
block-ReadsExec t c h zero rs rest l e s = absurd (omega (arith, l))
block-ReadsExec t c h (suc zero) rs rest l e s = absurd (omega (arith, l))
block-ReadsExec t c h (suc (suc fuel)) rs rest l e s =
    let len = length-append t (b')' ∷ 32 ∷ []) in
    rw
      (peek-symbol b'(' (32 ∷ (t ++ b')' ∷ 32 ∷ [] ++ (redirs_text rs ++ rest)))
        (unfold strchr in refl))
      (parseblock-block fuel t c rs rest h (omega (arith, l, len)) (omega (arith, l, len)) e
        (stops-is_clean rest s))
