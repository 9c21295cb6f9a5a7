-- ===== src/Shell/Args.antt =====
-- user/sh.c: `parseexec` reads the arguments of a command and the redirections behind them.
use paddle_os.Prelude.{
  leb, length, length-append, ◌>>=◌, ℕ, zero, suc, ◌+◌, ◌<◌, ◌≡◌, refl, true, false, List, [], ◌∷◌,
  ◌++◌, append_assoc, append-nil, arith, ok,
}
use paddle_os.Shell.{
  input, output, append, Redirs, exec, wrap, max_args, strchr, skip_spaces, gettoken, token_at,
  peek, symbols, parseredirs, parseargs, parseexec,
}
use paddle_os.Shell.Print.{redirs_text, words_text, all_words}
use paddle_os.Shell.Tokens.{
  is_word, is_clean, skip_spaces-clean, gettoken-word, is_clean-word, starts_with-word, stops,
}
use paddle_os.Shell.Redirs.{all_files, parseredirs-skip_spaces, parseredirs-redirs_text}

-- where a command without pipes ends
abbrev pub exec_stops : List ℕ
exec_stops = b'|' ∷ b')' ∷ b'&' ∷ b';' ∷ []

pub stops-is_clean : (rest : List ℕ) → stops exec_stops rest ≡ true → is_clean rest ≡ true
unfolding strchr
stops-is_clean [] h = refl
stops-is_clean (c ∷ s) h = ground (arith, h)

parseargs-end :
    (fuel : ℕ) (rs : Redirs) (argv : List (List ℕ)) (rest : List ℕ)
    → stops exec_stops rest ≡ true
    → parseargs (suc fuel) rs argv rest ≡ ok (wrap rs (exec argv), rest)
unfolding parseargs peek skip_spaces gettoken token_at
parseargs-end fuel rs argv [] h = refl
parseargs-end fuel rs argv (c ∷ s) h = rw (skip_spaces-clean (c ∷ s) (stops-is_clean (c ∷ s) h), h)

peek-word :
    (toks w s : List ℕ)
    → is_word w ≡ true
    → ((c : ℕ) → strchr toks c ≡ true → strchr symbols c ≡ true)
    → peek toks (w ++ s) ≡ (false, w ++ s)
unfolding peek
peek-word toks w s h k =
    rw (skip_spaces-clean (w ++ s) (is_clean-word w s h), starts_with-word toks w s h k)

parseargs-word :
    (fuel : ℕ) (argv : List (List ℕ)) (w s : List ℕ)
    → is_word w ≡ true
    → length argv + 1 < max_args
    → parseargs (suc fuel) [] argv (w ++ 32 ∷ s)
      ≡ (parseredirs fuel s >>= λ q. parseargs fuel q.0 (argv ++ (w ∷ [])) q.1)
unfolding parseargs
parseargs-word fuel argv w s h l =
    let k = peek-word exec_stops w (32 ∷ s) h (λ c e. unfold strchr in ground (arith, e)) in
    let n : leb max_args (length argv + 1) ≡ false = ground (arith, l) in
    rw (k, gettoken-word w s h, n, parseredirs-skip_spaces fuel s)

-- the redirections and the arguments up to the end of the command
parseargs-words_text :
    (ws : List (List ℕ)) (f g : ℕ) (rs : Redirs) (argv : List (List ℕ)) (rest : List ℕ)
    → length (redirs_text rs) < g
    → length (words_text ws) + length (redirs_text rs) < f
    → all_words ws ≡ true
    → all_files rs ≡ true
    → length argv + length ws < max_args
    → stops exec_stops rest ≡ true
    → (parseredirs g (words_text ws ++ (redirs_text rs ++ rest)) >>= λ q. parseargs f q.0 argv q.1)
      ≡ ok (wrap rs (exec (argv ++ ws)), rest)
unfolding words_text all_words
parseargs-words_text ws zero g rs argv rest l k h e n s = absurd (omega (arith, k))
parseargs-words_text [] (suc f) g rs argv rest l k h e n s = rw (
  parseredirs-redirs_text g rs rest l e (stops-is_clean rest s),
  parseargs-end f rs argv rest s,
  append-nil,
)
parseargs-words_text (w ∷ ws) (suc f) g rs argv rest l k h e n s =
    let more = words_text ws ++ (redirs_text rs ++ rest) in
    let is : is_word w ≡ true = ground (arith, h) in
    let first : parseredirs g (w ++ 32 ∷ more) ≡ ok ([], w ++ 32 ∷ more) =
      unfold redirs_text all_files in
      parseredirs-redirs_text g [] (w ++ 32 ∷ more) (omega (arith, l)) refl
        (is_clean-word w (32 ∷ more) is) in
    let len = length-append w (32 ∷ words_text ws) in
    let ih =
      parseargs-words_text ws f f rs (argv ++ (w ∷ [])) rest (omega (arith, k, len))
        (omega (arith, k, len)) (ground (arith, h)) e
        (omega (arith, n, length-append argv (w ∷ []))) s in
    rw (
      append_assoc w (32 ∷ words_text ws) (redirs_text rs ++ rest),
      first,
      parseargs-word f argv w more is (omega (arith, n)),
      ih,
      append_assoc argv (w ∷ []) ws,
    )

peek-redirs_text :
    (rs : Redirs) (rest : List ℕ)
    → stops exec_stops rest ≡ true
    → peek (b'(' ∷ []) (redirs_text rs ++ rest) ≡ (false, redirs_text rs ++ rest)
unfolding peek skip_spaces strchr redirs_text
peek-redirs_text ((file, input) ∷ rs) rest s = refl
peek-redirs_text ((file, output) ∷ rs) rest s = refl
peek-redirs_text ((file, append) ∷ rs) rest s = refl
peek-redirs_text [] [] s = refl
peek-redirs_text [] (c ∷ rest) s = ground (arith, s)

peek-words_text :
    (ws : List (List ℕ)) (rs : Redirs) (rest : List ℕ)
    → all_words ws ≡ true
    → stops exec_stops rest ≡ true
    → peek (b'(' ∷ []) (words_text ws ++ (redirs_text rs ++ rest))
      ≡ (false, words_text ws ++ (redirs_text rs ++ rest))
unfolding words_text all_words
peek-words_text (w ∷ ws) rs rest h s = rw (
  append_assoc w (32 ∷ words_text ws) (redirs_text rs ++ rest),
  peek-word (b'(' ∷ []) w (32 ∷ (words_text ws ++ (redirs_text rs ++ rest))) (ground (arith, h))
      (λ c e. unfold strchr in ground (arith, e)),
)
peek-words_text [] rs rest h s = peek-redirs_text rs rest s

pub parseexec-words_text :
    (fuel : ℕ) (ws : List (List ℕ)) (rs : Redirs) (rest : List ℕ)
    → length (words_text ws) + length (redirs_text rs) + 1 < fuel
    → all_words ws ≡ true
    → all_files rs ≡ true
    → length ws < max_args
    → stops exec_stops rest ≡ true
    → parseexec fuel (words_text ws ++ (redirs_text rs ++ rest)) ≡ ok (wrap rs (exec ws), rest)
unfolding parseexec
parseexec-words_text zero ws rs rest l h e n s = absurd (omega (arith, l))
parseexec-words_text (suc fuel) ws rs rest l h e n s = rw (
  peek-words_text ws rs rest h s,
  parseargs-words_text ws fuel fuel rs [] rest (omega (arith, l)) (omega (arith, l)) h e
      (omega (arith, n)) s,
)
