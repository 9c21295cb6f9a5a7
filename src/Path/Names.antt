-- ===== src/Path/Names.antt =====
-- `skipelem` of kernel/fs.c against the names between the slashes of a path.
use paddle_os.Prelude.{
  ◌==◌, if◌then◌else◌, Bool-cases, length, take, ℕ, ◌≤◌, ◌<◌, ◌≡◌, refl, sym, ap, ◌∙◌, inl, inr,
  Bool, false, Option, none, some, List, [], ◌∷◌, arith,
}
use paddle_os.Path.{dirsiz, slash, skip_slashes, element, skipelem}

abbrev pub cons_head : ℕ → List (List ℕ) → List (List ℕ)
cons_head c [] = (c ∷ []) ∷ []
cons_head c (s ∷ ss) = (c ∷ s) ∷ ss

-- the path cut at each slash
unfoldable pub segments : List ℕ → List (List ℕ)
segments [] = [] ∷ []
segments (c ∷ path) = if c == slash then [] ∷ segments path else cons_head c (segments path)

abbrev pub nonempty : List (List ℕ) → List (List ℕ)
nonempty [] = []
nonempty ([] ∷ ss) = nonempty ss
nonempty ((c ∷ s) ∷ ss) = (c ∷ s) ∷ nonempty ss

-- the names of a path, in full length
abbrev pub names : List ℕ → List (List ℕ)
names path = nonempty (segments path)

abbrev after : List ℕ → List (List ℕ)
after [] = []
after (c ∷ path) = segments path

abbrev pub starts_slash : List ℕ → Bool
starts_slash [] = false
starts_slash (c ∷ path) = c == slash

segments-element : (path : List ℕ) → segments path ≡ (element path).0 ∷ after (element path).1
unfolding segments element
segments-element [] = refl
segments-element (c ∷ path) = elim (Bool-cases (c == slash)) [
  | inl e ↦ rw e refl
  | inr e ↦ rw e (ap (cons_head c) (segments-element path))
]

names-behind : (path : List ℕ) → names (element path).1 ≡ nonempty (after (element path).1)
unfolding segments element
names-behind [] = refl
names-behind (c ∷ path) = elim (Bool-cases (c == slash)) [
  | inl e ↦ rw e (rw e refl)
  | inr e ↦ rw e (names-behind path)
]

names-skip_slashes : (path : List ℕ) → names (skip_slashes path) ≡ names path
unfolding segments skip_slashes
names-skip_slashes [] = refl
names-skip_slashes (c ∷ path) = elim (Bool-cases (c == slash)) [
  | inl e ↦ rw e (names-skip_slashes path)
  | inr e ↦ rw e (rw e refl)
]

skip_slashes-starts : (path : List ℕ) → starts_slash (skip_slashes path) ≡ false
unfolding skip_slashes
skip_slashes-starts [] = refl
skip_slashes-starts (c ∷ path) = elim (Bool-cases (c == slash)) [
  | inl e ↦ rw e (skip_slashes-starts path)
  | inr e ↦ rw e e
]

length-skip_slashes : (path : List ℕ) → length (skip_slashes path) ≤ length path
unfolding skip_slashes
length-skip_slashes [] = omega arith
length-skip_slashes (c ∷ path) = ground (arith, length-skip_slashes path)

length-element : (path : List ℕ) → length (element path).1 ≤ length path
unfolding element
length-element [] = omega arith
length-element (c ∷ path) = ground (arith, length-element path)

-- What `skipelem` answers for a path with the names `ns`.
pub data Skipped (path : List ℕ) : Option (List ℕ × List ℕ) → Type 0 where
  no_name : names path ≡ [] → Skipped path none
  one_name :
      (s rest : List ℕ)
      → names path ≡ s ∷ names rest
      → starts_slash rest ≡ false
      → length rest < length path
      → Skipped path (some (take dirsiz s, rest))

names-element :
    (c : ℕ) (path : List ℕ)
    → (c == slash) ≡ false
    → names (c ∷ path) ≡ (element (c ∷ path)).0 ∷ names (element (c ∷ path)).1
unfolding segments element
names-element c path e = rw e (
    ap (λ ss. nonempty (cons_head c ss)) (segments-element path)
    ∙ ap (λ ss. (c ∷ (element path).0) ∷ ss) (sym (names-behind path)))

shorter :
    (c : ℕ) (path : List ℕ)
    → (c == slash) ≡ false
    → length (skip_slashes (element (c ∷ path)).1) < length (c ∷ path)
unfolding element
shorter c path e = rw e (omega (arith, length-skip_slashes (element path).1, length-element path))

Skipped-of : (path p : List ℕ) → skip_slashes path ≡ p → Skipped path (skipelem path)
unfolding skipelem segments
Skipped-of path [] e = rw (e, skipelem) (no_name (sym (names-skip_slashes path) ∙ ap names e))
Skipped-of path (c ∷ p) e =
    let n : (c == slash) ≡ false = sym (ap starts_slash e) ∙ skip_slashes-starts path in
    let rest = (element (c ∷ p)).1 in
    rw (e, skipelem)
      (one_name (element (c ∷ p)).0 (skip_slashes rest)
        (sym (names-skip_slashes path)
          ∙ ap names e
          ∙ names-element c p n
          ∙ ap (λ ns. (element (c ∷ p)).0 ∷ ns) (sym (names-skip_slashes rest)))
        (skip_slashes-starts rest)
        (omega (arith, shorter c p n, length-skip_slashes path, ap length e)))

-- `skipelem` answers that there is no name exactly where the path has none between its slashes.
-- Otherwise it gives the first name, cut to 14 bytes, and a shorter path that has the other names
-- and does not start with a slash.
pub skipelem_lem : (path : List ℕ) → Skipped path (skipelem path)
skipelem_lem path = Skipped-of path (skip_slashes path) refl
