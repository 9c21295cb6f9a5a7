-- ===== src/Shell/Stops.antt =====
-- user/sh.c: the single steps of the parser at a symbol, at white space and where a command stops.
use paddle_os.Prelude.{
  Outcome, ◌>>=◌, ℕ, zero, suc, ◌<◌, ◌≡◌, refl, true, false, List, [], ◌∷◌, arith, ok, panic,
  out_of_fuel,
}
use paddle_os.Shell.{
  Cmd, back, strchr, skip_spaces, gettoken, token_at, symbols, peek, parsebacks, parseline,
  parsepipe, parseexec,
}
use paddle_os.Shell.Tokens.{skip_spaces-skip_spaces, stops}
use paddle_os.Shell.Args.{exec_stops}

abbrev pub pipe_stops : List ℕ
pipe_stops = b')' ∷ b'&' ∷ b';' ∷ []

abbrev pub line_stops : List ℕ
line_stops = b')' ∷ []

pub pipe_stops-exec_stops :
    (rest : List ℕ) → stops pipe_stops rest ≡ true → stops exec_stops rest ≡ true
unfolding strchr
pipe_stops-exec_stops [] s = refl
pipe_stops-exec_stops (c ∷ rest) s = ground (arith, s)

pub line_stops-pipe_stops :
    (rest : List ℕ) → stops line_stops rest ≡ true → stops pipe_stops rest ≡ true
unfolding strchr
line_stops-pipe_stops [] s = refl
line_stops-pipe_stops (c ∷ rest) s = ground (arith, s)

pub peek-pipe_stops :
    (rest : List ℕ) → stops pipe_stops rest ≡ true → peek (b'|' ∷ []) rest ≡ (false, rest)
unfolding peek skip_spaces strchr
peek-pipe_stops [] s = refl
peek-pipe_stops (c ∷ rest) s = ground (arith, s)

pub peek-line_stops :
    (rest : List ℕ)
    → stops line_stops rest ≡ true
    → peek (b'&' ∷ []) rest ≡ (false, rest) × peek (b';' ∷ []) rest ≡ (false, rest)
unfolding peek skip_spaces strchr
peek-line_stops [] s = (refl, refl)
peek-line_stops (c ∷ rest) s = (ground (arith, s), ground (arith, s))

pub parseexec-skip_spaces :
    (fuel : ℕ) (s : List ℕ) → parseexec fuel (skip_spaces s) ≡ parseexec fuel s
unfolding parseexec peek
parseexec-skip_spaces zero s = refl
parseexec-skip_spaces (suc fuel) s = rw (skip_spaces-skip_spaces s)

pub parsepipe-skip_spaces :
    (fuel : ℕ) (s : List ℕ) → parsepipe fuel (skip_spaces s) ≡ parsepipe fuel s
unfolding parsepipe
parsepipe-skip_spaces zero s = refl
parsepipe-skip_spaces (suc fuel) s = rw (parseexec-skip_spaces fuel s)

pub parseline-skip_spaces :
    (fuel : ℕ) (s : List ℕ) → parseline fuel (skip_spaces s) ≡ parseline fuel s
unfolding parseline
parseline-skip_spaces zero s = refl
parseline-skip_spaces (suc fuel) s = rw (parsepipe-skip_spaces fuel s)

-- a symbol and the space behind it
pub peek-symbol :
    (x : ℕ) (s : List ℕ) → strchr symbols x ≡ true → peek (x ∷ []) (x ∷ s) ≡ (true, x ∷ s)
unfolding peek skip_spaces strchr
peek-symbol x s h = ground (arith, h)

pub gettoken-symbol :
    (x : ℕ) (s : List ℕ)
    → strchr (b'|' ∷ b'(' ∷ b')' ∷ b';' ∷ b'&' ∷ []) x ≡ true
    → (gettoken (x ∷ 32 ∷ s)).2 ≡ skip_spaces s
unfolding gettoken token_at skip_spaces strchr
gettoken-symbol x s h = ground (arith, h)

pub bind-ok :
    {A B : Type 0} (m : Outcome A) (f : A → Outcome B) (x : B)
    → (m >>= f) ≡ ok x
    → (g : B → Outcome B) → (m >>= λ r. f r >>= g) ≡ g x
bind-ok (ok a) f x h g = rw h
bind-ok panic f x h g = absurd (ground (arith, h))
bind-ok out_of_fuel f x h g = absurd (ground (arith, h))

pub parsebacks-end :
    (g : ℕ) (c : Cmd) (rest : List ℕ)
    → 0 < g
    → peek (b'&' ∷ []) rest ≡ (false, rest)
    → parsebacks g c rest ≡ ok (c, rest)
unfolding parsebacks
parsebacks-end zero c rest l e = absurd (omega (arith, l))
parsebacks-end (suc g) c rest l e = rw e

pub parsebacks-skip_spaces :
    (g : ℕ) (c : Cmd) (s : List ℕ) → parsebacks g c (skip_spaces s) ≡ parsebacks g c s
unfolding parsebacks peek
parsebacks-skip_spaces zero c s = refl
parsebacks-skip_spaces (suc g) c s = rw (skip_spaces-skip_spaces s)

pub parsebacks-back :
    (g : ℕ) (c : Cmd) (rest : List ℕ)
    → parsebacks (suc g) c (b'&' ∷ 32 ∷ rest) ≡ parsebacks g (back c) rest
unfolding parsebacks
parsebacks-back g c rest = rw (
  peek-symbol b'&' (32 ∷ rest) (unfold strchr in refl),
  gettoken-symbol b'&' rest (unfold strchr in refl),
  parsebacks-skip_spaces g (back c) rest,
)
