-- ===== src/Shell/Redirs.antt =====
-- user/sh.c: `parseredirs` reads the redirections that stand behind a command.
use paddle_os.Prelude.{
  length, length-append, ◌>>=◌, ℕ, zero, suc, ◌<◌, ◌≡◌, refl, Bool, true, ◌&&◌, List, [], ◌∷◌, ◌++◌,
  append_assoc, arith, ok,
}
use paddle_os.Shell.{
  Redirs, Redirection, input, output, append, strchr, skip_spaces, gettoken, greater, token_at,
  peek, parseredirs, redirection,
}
use paddle_os.Shell.Print.{redir_text, redirs_text, arrow}
use paddle_os.Shell.Tokens.{
  is_word, is_clean, skip_spaces-skip_spaces, skip_spaces-clean, gettoken-word,
}

-- the files of the redirections are words
unfoldable pub all_files : Redirs → Bool
all_files [] = true
all_files (r ∷ rs) = is_word r.0 && all_files rs

pub parseredirs-skip_spaces :
    (fuel : ℕ) (s : List ℕ) → parseredirs fuel (skip_spaces s) ≡ parseredirs fuel s
unfolding parseredirs peek
parseredirs-skip_spaces zero s = refl
parseredirs-skip_spaces (suc fuel) s = rw (skip_spaces-skip_spaces s)

pub gettoken-skip_spaces : (s : List ℕ) → gettoken (skip_spaces s) ≡ gettoken s
unfolding gettoken
gettoken-skip_spaces s = rw (skip_spaces-skip_spaces s)

parseredirs-end :
    (fuel : ℕ) (rest : List ℕ) → is_clean rest ≡ true → parseredirs (suc fuel) rest ≡ ok ([], rest)
unfolding parseredirs peek skip_spaces strchr
parseredirs-end fuel [] h = refl
parseredirs-end fuel (c ∷ s) h = ground (arith, h, skip_spaces-clean (c ∷ s) h)

-- the token of an arrow
abbrev token : Redirection → ℕ
token input = b'<'
token output = b'>'
token append = b'+'

gettoken-arrow :
    (r : Redirection) (s : List ℕ)
    → (gettoken (arrow r ++ s)).0 ≡ token r × (gettoken (arrow r ++ s)).2 ≡ skip_spaces s
unfolding gettoken token_at skip_spaces strchr greater
gettoken-arrow input s = (refl, refl)
gettoken-arrow output s = (refl, refl)
gettoken-arrow append s = (refl, refl)

peek-arrow :
    (r : Redirection) (s : List ℕ) → peek (b'<' ∷ b'>' ∷ []) (arrow r ++ s) ≡ (true, arrow r ++ s)
unfolding peek skip_spaces strchr
peek-arrow input s = refl
peek-arrow output s = refl
peek-arrow append s = refl

redirection-token : (r : Redirection) → redirection (token r) ≡ r
redirection-token input = refl
redirection-token output = refl
redirection-token append = refl

-- one redirection
parseredirs-redir :
    (fuel : ℕ) (file : List ℕ) (r : Redirection) (s : List ℕ)
    → is_word file ≡ true
    → parseredirs (suc fuel) (arrow r ++ (file ++ 32 ∷ s))
      ≡ (parseredirs fuel s >>= λ q. ok ((file, r) ∷ q.0, q.1))
unfolding parseredirs
parseredirs-redir fuel file r s h =
    let a = gettoken-arrow r (file ++ 32 ∷ s) in
    rw (
      peek-arrow r (file ++ 32 ∷ s),
      a.0,
      a.1,
      gettoken-skip_spaces (file ++ 32 ∷ s),
      gettoken-word file s h,
      redirection-token r,
      parseredirs-skip_spaces fuel s,
    )

pub length-redir_text_pos : (r : List ℕ × Redirection) → 2 < length (redir_text r)
length-redir_text_pos r = elim r.1 as (λ a. 2 < length (arrow a ++ (r.0 ++ 32 ∷ []))) [
  | input ↦ omega (arith, length-append r.0 (32 ∷ []))
  | output ↦ omega (arith, length-append r.0 (32 ∷ []))
  | append ↦ omega (arith, length-append r.0 (32 ∷ []))
]

pub parseredirs-redirs_text :
    (fuel : ℕ) (rs : Redirs) (rest : List ℕ)
    → length (redirs_text rs) < fuel
    → all_files rs ≡ true
    → is_clean rest ≡ true
    → parseredirs fuel (redirs_text rs ++ rest) ≡ ok (rs, rest)
unfolding redirs_text all_files
parseredirs-redirs_text zero rs rest l h e = absurd (omega (arith, l))
parseredirs-redirs_text (suc fuel) [] rest l h e = parseredirs-end fuel rest e
parseredirs-redirs_text (suc fuel) (r ∷ rs) rest l h e =
    let split = append_assoc (redir_text r) (redirs_text rs) rest in
    let inner = append_assoc r.0 (32 ∷ []) (redirs_text rs ++ rest) in
    let outer = append_assoc (arrow r.1) (r.0 ++ 32 ∷ []) (redirs_text rs ++ rest) in
    let ih =
      parseredirs-redirs_text fuel rs rest
        (omega (arith, l, length-append (redir_text r) (redirs_text rs), length-redir_text_pos r))
        (ground (arith, h)) e in
    rw (
      split,
      outer,
      inner,
      parseredirs-redir fuel r.0 r.1 (redirs_text rs ++ rest) (ground (arith, h)),
      ih,
    )
