-- ===== src/Shell.antt =====
-- user/sh.c: the tokens and the parser of the shell. The input is the list of the bytes before the
-- terminator, so that `s < es` is that the list is not empty. A call gives the input that is left
-- as the last part of its result, where the source moves `*ps`. `panic` is a syntax error, which exits.
-- A struct that a constructor function fills is a value; the strings that `nulterminate` cuts are
-- the words themselves.
pub mod Tokens
pub mod Print
pub mod Redirs
pub mod Args
pub mod Stops
pub mod Levels
pub mod RoundTrip
mod Tests
use paddle_os.Prelude.{
  leb, ◌==◌, if◌then◌else◌, length, Outcome, ◌>>=◌, ℕ, zero, suc, ◌+◌, ◌*◌, Bool, false, not, ◌&&◌,
  ◌||◌, List, [], ◌∷◌, ◌++◌, ok, panic, out_of_fuel,
}

-- whether `strchr(toks, c)` finds the byte
unfoldable pub strchr : List ℕ → ℕ → Bool
strchr [] c = false
strchr (x ∷ toks) c = c == x || strchr toks c

-- `whitespace` and `symbols`
abbrev pub whitespace : List ℕ
whitespace = 32 ∷ 9 ∷ 13 ∷ 10 ∷ 11 ∷ []

abbrev pub symbols : List ℕ
symbols = b'<' ∷ b'|' ∷ b'>' ∷ b'&' ∷ b';' ∷ b'(' ∷ b')' ∷ []

-- `while (s < es && strchr(whitespace, *s)) s++;`
unfoldable pub skip_spaces : List ℕ → List ℕ
skip_spaces [] = []
skip_spaces (c ∷ s) = if strchr whitespace c then skip_spaces s else c ∷ s

-- the loop of `gettoken` over a word: the bytes passed, and the rest
unfoldable pub word : List ℕ → List ℕ × List ℕ
word [] = ([], [])
word (c ∷ s) =
    let rest = word s in
    if not (strchr whitespace c) && not (strchr symbols c)
    then (c ∷ rest.0, rest.1)
    else ([], c ∷ s)

-- The result of `gettoken`: what it returns, the bytes from `*q` to `*eq`, and the rest.
abbrev pub Token : Type 0
Token = ℕ × List ℕ × List ℕ

unfoldable pub greater : List ℕ → Token
greater [] = (b'>', b'>' ∷ [], [])
greater (c ∷ s) =
    if c == b'>'
    then (b'+', b'>' ∷ b'>' ∷ [], skip_spaces s)
    else (b'>', b'>' ∷ [], skip_spaces (c ∷ s))

unfoldable pub token_at : List ℕ → Token
token_at [] = (0, [], [])
token_at (c ∷ s) =
    if strchr (b'|' ∷ b'(' ∷ b')' ∷ b';' ∷ b'&' ∷ b'<' ∷ []) c
    then (c, c ∷ [], skip_spaces s)
    else if c == b'>'
    then greater s
    else (b'a', (word (c ∷ s)).0, skip_spaces (word (c ∷ s)).1)

unfoldable pub gettoken : List ℕ → Token
gettoken s = token_at (skip_spaces s)

abbrev pub starts_with : List ℕ → List ℕ → Bool
starts_with toks [] = false
starts_with toks (c ∷ s) = strchr toks c

unfoldable pub peek : (toks : List ℕ) → List ℕ → Bool × List ℕ
peek toks s = (starts_with toks (skip_spaces s), skip_spaces s)

-- The three redirections: O_RDONLY of 0, and O_WRONLY | O_CREATE of 1, with O_TRUNC or without.
pub data Redirection : Type 0 where
  input : Redirection
  output : Redirection
  append : Redirection

pub data Cmd : Type 0 where
  exec : List (List ℕ) → Cmd
  redir : Cmd → (file : List ℕ) → Redirection → Cmd
  pipe : Cmd → Cmd → Cmd
  list : Cmd → Cmd → Cmd
  back : Cmd → Cmd

abbrev pub Redirs : Type 0
Redirs = List (List ℕ × Redirection)

-- the calls of `redircmd` around a command
unfoldable pub wrap : Redirs → Cmd → Cmd
wrap [] c = c
wrap ((file, r) ∷ rs) c = wrap rs (redir c file r)

-- `MAXARGS`
abbrev pub max_args : ℕ
max_args = 10

-- the `switch` of `parseredirs`
abbrev pub redirection : (tok : ℕ) → Redirection
redirection tok = if tok == b'<' then input else if tok == b'>' then output else append

-- `parseredirs`: the redirections that are read.
unfoldable pub parseredirs : (fuel : ℕ) → List ℕ → Outcome (Redirs × List ℕ)
parseredirs zero s = out_of_fuel
parseredirs (suc fuel) s =
    let k = peek (b'<' ∷ b'>' ∷ []) s in
    let t = gettoken k.1 in
    let f = gettoken t.2 in
    let rest = parseredirs fuel f.2 >>= λ r. ok ((f.1, redirection t.0) ∷ r.0, r.1) in
    if not k.0 then ok ([], k.1) else if not (f.0 == b'a') then panic else rest

-- The loop of `parseexec`, with the redirections and the arguments read before. The arguments are
-- filled into the command that the redirections are around.
unfoldable pub parseargs :
    (fuel : ℕ) → Redirs → (argv : List (List ℕ)) → List ℕ → Outcome (Cmd × List ℕ)
parseargs zero rs argv s = out_of_fuel
parseargs (suc fuel) rs argv s =
    let k = peek (b'|' ∷ b')' ∷ b'&' ∷ b';' ∷ []) s in
    let t = gettoken k.1 in
    let rest = parseredirs fuel t.2 >>= λ q. parseargs fuel (rs ++ q.0) (argv ++ (t.1 ∷ [])) q.1 in
    if k.0
    then ok (wrap rs (exec argv), k.1)
    else if t.0 == 0
    then ok (wrap rs (exec argv), t.2)
    else if not (t.0 == b'a')
    then panic
    else if leb max_args (length argv + 1)
    then panic
    else rest

-- the loop of `parseline`
unfoldable pub parsebacks : (fuel : ℕ) → Cmd → List ℕ → Outcome (Cmd × List ℕ)
parsebacks zero c s = out_of_fuel
parsebacks (suc fuel) c s =
    let k = peek (b'&' ∷ []) s in
    let rest = parsebacks fuel (back c) (gettoken k.1).2 in if k.0 then rest else ok (c, k.1)

-- Each call takes a unit of fuel, and so does each round of a loop.
unfoldable mutual
  pub parseline : (fuel : ℕ) → List ℕ → Outcome (Cmd × List ℕ)
  parseline zero s = out_of_fuel
  parseline (suc fuel) s = parsepipe fuel s >>= λ r. parsebacks fuel r.0 r.1 >>= λ b.
      let k = peek (b';' ∷ []) b.1 in
      let rest = parseline fuel (gettoken k.1).2 >>= λ l. ok (list b.0 l.0, l.1) in
      if k.0 then rest else ok (b.0, k.1)

  pub parsepipe : (fuel : ℕ) → List ℕ → Outcome (Cmd × List ℕ)
  parsepipe zero s = out_of_fuel
  parsepipe (suc fuel) s = parseexec fuel s >>= λ r.
      let k = peek (b'|' ∷ []) r.1 in
      let rest = parsepipe fuel (gettoken k.1).2 >>= λ p. ok (pipe r.0 p.0, p.1) in
      if k.0 then rest else ok (r.0, k.1)

  pub parseblock : (fuel : ℕ) → List ℕ → Outcome (Cmd × List ℕ)
  parseblock zero s = out_of_fuel
  parseblock (suc fuel) s =
      let k = peek (b'(' ∷ []) s in
      let rest = parseline fuel (gettoken k.1).2 >>= λ r.
      let e = peek (b')' ∷ []) r.1 in
      let more = parseredirs fuel (gettoken e.1).2 >>= λ q. ok (wrap q.0 r.0, q.1) in
      if e.0 then more else panic in
      if k.0 then rest else panic

  pub parseexec : (fuel : ℕ) → List ℕ → Outcome (Cmd × List ℕ)
  parseexec zero s = out_of_fuel
  parseexec (suc fuel) s =
      let k = peek (b'(' ∷ []) s in
      let block = parseblock fuel k.1 in
      let args = parseredirs fuel k.1 >>= λ q. parseargs fuel q.0 [] q.1 in
      if k.0 then block else args

abbrev pub finish : Cmd → List ℕ → Outcome Cmd
finish c [] = ok c
finish c (x ∷ s) = panic

unfoldable pub parsecmd : List ℕ → Outcome Cmd
parsecmd s = parseline (4 * length s + 4) s >>= λ r. finish r.0 (peek [] r.1).1
