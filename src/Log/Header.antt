-- ===== src/Log/Header.antt =====
-- The header block of kernel/log.c, written and read.
use paddle_os.Prelude.{
  ltb, ◌==◌, if◌then◌else◌, Option-cases, put, length, All, ℕ, ◌+◌, ◌^◌, ◌≤◌, ◌<◌, ◌≡◌, refl, ◌⊎◌,
  inl, inr, true, false, Option, none, some, List, [], ◌∷◌, arith,
}
use paddle_os.Log.{Block, Disk, read_words, write_words, elem}

-- `write_words` spares the words below its first.
write_words-below : (xs : List ℕ) (i j : ℕ) (w : Block) → j < i → write_words xs i w j ≡ w j
unfolding write_words
write_words-below [] i j w h = refl
write_words-below (x ∷ xs) i j w h = ground (arith, write_words-below xs (i + 1) j (put w i x))

pub read_words-write_words :
    (xs : List ℕ) (i : ℕ) (w : Block) → read_words (length xs) i (write_words xs i w) ≡ xs
unfolding read_words write_words
read_words-write_words [] i w = refl
read_words-write_words (x ∷ xs) i w = ground (
  arith,
  write_words-below xs (i + 1) i (put w i x),
  read_words-write_words xs (i + 1) (put w i x),
)

-- The blocks that the header of a disk lists.
unfoldable pub entries : Block → List ℕ
entries w = read_words (if ltb (w 0) (2 ^ 31) then w 0 else 0) 1 w

-- the header that `write_head` makes of the words `w` and the list `bs`
abbrev pub header : List ℕ → Block → Block
header bs w = write_words bs 1 (put w 0 (length bs))

pub entries-header : (bs : List ℕ) (w : Block) → length bs < 2 ^ 31 → entries (header bs w) ≡ bs
unfolding entries
entries-header bs w h =
    let n : header bs w 0 ≡ length bs = write_words-below bs 1 0 _ (omega arith) in
    let small : ltb (length bs) (2 ^ 31) ≡ true = ground arith in
    rw (n, small) (read_words-write_words bs 1 (put w 0 (length bs)))

-- The slot of the log that holds the newest copy of `b`, if the entries from `slot` on are `bs`.
unfoldable pub newest : List ℕ → (slot b : ℕ) → Option ℕ
newest [] slot b = none
newest (x ∷ bs) slot b = elim (newest bs (slot + 1) b) [
  | some j ↦ some j
  | none ↦ if x == b then some slot else none
]

-- What block `b` of a disk reads after a recovery: its newest copy in the log, else the block.
unfoldable pub content : (start : ℕ) → Disk → ℕ → Block
content start d b = elim (newest (entries (d start)) (start + 1) b) [ some j ↦ d j | none ↦ d b ]

pub newest-none : (bs : List ℕ) (slot b : ℕ) → elem b bs ≡ false → newest bs slot b ≡ none
unfolding newest
newest-none [] slot b h = refl
newest-none (x ∷ bs) slot b h = ground (arith, newest-none bs (slot + 1) b)

pub elem_of_none : (bs : List ℕ) (slot b : ℕ) → newest bs slot b ≡ none → elem b bs ≡ false
unfolding newest
elem_of_none [] slot b h = refl
elem_of_none (x ∷ bs) slot b h = elim (Option-cases (newest bs (slot + 1) b)) [
  | inl e ↦ ground (arith, e, elem_of_none bs (slot + 1) b e)
  | inr (i, e) ↦ ground (arith, e)
]

pub newest-some :
    (bs : List ℕ) (slot b : ℕ) {j : ℕ}
    → newest bs slot b ≡ some j
    → (elem b bs ≡ true) × (slot ≤ j) × (j < slot + length bs)
unfolding newest
newest-some [] slot b h = cc
newest-some (x ∷ bs) slot b {j} h = elim (Option-cases (newest bs (slot + 1) b)) [
  | inl e ↦ ground (arith, e)
  | inr (i, e) ↦ ground (arith, e, newest-some bs (slot + 1) b e)
]

-- Every block of the list lies outside the area from `lo` up to `hi`.
abbrev pub Outside : (lo hi : ℕ) → List ℕ → Type 0
Outside lo hi bs = All (λ b. (b < lo) ⊎ (hi ≤ b)) bs

pub elem-Outside :
    (lo hi : ℕ) (bs : List ℕ) (b : ℕ) → Outside lo hi bs → elem b bs ≡ true → (b < lo) ⊎ (hi ≤ b)
elem-Outside lo hi [] b out h = cc
elem-Outside lo hi (x ∷ bs) b out h = ground (arith, out.0, elem-Outside lo hi bs b out.1)
