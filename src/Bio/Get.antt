-- ===== src/Bio/Get.antt =====
-- `bget` of kernel/bio.c against the order of the list.
use paddle_os.Prelude.{
  ◌==◌, if◌then◌else◌, Option-cases, put, length, Outcome, ℕ, zero, suc, ◌+◌, ◌%◌, ◌^◌, ◌<◌, ◌≡◌,
  refl, inl, inr, Bool, false, ◌&&◌, ◌||◌, Option, none, some, List, [], ◌∷◌, arith, ok, panic,
}
use paddle_os.Bio.{Cache, nbuf, head, find_block, find_lru, take_buffer, bget}
use paddle_os.Bio.Chain.{mem, Chain}
use paddle_os.Bio.Order.{IsOrder}

-- the first element of a list that passes a test
unfoldable pub first_with : (ℕ → Bool) → List ℕ → Option ℕ
first_with p [] = none
first_with p (x ∷ xs) = if p x then some x else first_with p xs

abbrev pub reversed : List ℕ → List ℕ → List ℕ
reversed [] ys = ys
reversed (x ∷ xs) ys = reversed xs (x ∷ ys)

abbrev pub has_block : Cache → (dev blockno : ℕ) → ℕ → Bool
has_block c d n b = c.dev b == d && c.blockno b == n

abbrev pub is_idle : Cache → ℕ → Bool
is_idle c b = c.refcnt b == 0

-- From the node `z` back over the nodes `ys` to the node `a`.
abbrev Back : (prev : ℕ → ℕ) (z : ℕ) → List ℕ → (a : ℕ) → Type 0
Back pv z [] a = pv z ≡ a
Back pv z (y ∷ ys) a = (pv z ≡ y) × Back pv y ys a

Back-reversed :
    (nx pv : ℕ → ℕ) (a : ℕ) (xs : List ℕ) (z : ℕ) (ys : List ℕ) (w : ℕ)
    → Chain nx pv a xs z
    → Back pv a ys w
    → Back pv z (reversed xs (a ∷ ys)) w
Back-reversed nx pv a [] z ys w (l, r) k = (r, k)
Back-reversed nx pv a (x ∷ xs) z ys w (l, r, c) k = Back-reversed nx pv x xs z (a ∷ ys) w c (r, k)

Back-ring :
    (nx pv : ℕ → ℕ) (h : ℕ) (xs : List ℕ) → Chain nx pv h xs h → Back pv h (reversed xs []) h
Back-ring nx pv h [] (l, r) = r
Back-ring nx pv h (x ∷ xs) (l, r, c) = Back-reversed nx pv x xs h [] h c r

pub mem-reversed : (a : ℕ) (xs ys : List ℕ) → mem a (reversed xs ys) ≡ (mem a xs || mem a ys)
mem-reversed a [] ys = refl
mem-reversed a (x ∷ xs) ys = ground (arith, mem-reversed a xs (x ∷ ys))

length-reversed : (xs ys : List ℕ) → length (reversed xs ys) ≡ length xs + length ys
length-reversed [] ys = omega arith
length-reversed (x ∷ xs) ys = omega (arith, length-reversed xs (x ∷ ys))

find_block-first_with :
    (fuel a d n : ℕ) (xs : List ℕ) (c : Cache)
    → Chain c.next c.prev a xs head
    → mem head xs ≡ false
    → length xs < fuel
    → find_block fuel (c.next a) d n c ≡ ok (first_with (has_block c d n) xs)
unfolding find_block first_with
find_block-first_with zero a d n xs c l m b = absurd (omega (arith, b))
find_block-first_with (suc fuel) a d n [] c (l, r) m b = ground (arith, l)
find_block-first_with (suc fuel) a d n (x ∷ xs) c (l, r, k) m b = rw l (
    ground
      (arith, m, find_block-first_with fuel x d n xs c k (ground (arith, m)) (omega (arith, b))))

find_lru-first_with :
    (fuel z : ℕ) (ys : List ℕ) (c : Cache)
    → Back c.prev z ys head
    → mem head ys ≡ false
    → length ys < fuel
    → find_lru fuel (c.prev z) c ≡ ok (first_with (is_idle c) ys)
unfolding find_lru first_with
find_lru-first_with zero z ys c l m b = absurd (omega (arith, b))
find_lru-first_with (suc fuel) z [] c l m b = ground (arith, l)
find_lru-first_with (suc fuel) z (y ∷ ys) c (l, k) m b =
    rw l
      (ground (arith, m, find_lru-first_with fuel y ys c k (ground (arith, m)) (omega (arith, b))))

-- what `bget` does, by the order of the buffers
abbrev pub get_by_order : (dev blockno : ℕ) (xs : List ℕ) → Cache → Outcome (ℕ × Cache)
get_by_order d n xs c = elim (first_with (has_block c d n) xs) [
  | some b ↦ ok (b, record c { refcnt = put c.refcnt b ((c.refcnt b + 1) % 2 ^ 32) })
  | none ↦ elim (first_with (is_idle c) (reversed xs [])) [
    | none ↦ panic
    | some b ↦ ok (b, take_buffer b d n c)
  ]
]

find_lru-ring :
    (xs : List ℕ) (c : Cache)
    → IsOrder c xs
    → find_lru (nbuf + 1) (c.prev head) c ≡ ok (first_with (is_idle c) (reversed xs []))
find_lru-ring xs c h =
    find_lru-first_with (nbuf + 1) head (reversed xs []) c
      (Back-ring c.next c.prev head xs h.linked)
      (ground (arith, mem-reversed head xs [], h.no_head))
      (omega (arith, length-reversed xs [], h.count))

-- `bget` takes the buffer that has the block, or else the least recently used one that nobody
-- uses, and panics where every buffer is in use.
pub bget-get_by_order :
    (d n : ℕ) (xs : List ℕ) (c : Cache) → IsOrder c xs → bget d n c ≡ get_by_order d n xs c
unfolding bget
bget-get_by_order d n xs c h =
    rw (find_block-first_with (nbuf + 1) head d n xs c h.linked h.no_head (omega (arith, h.count)))
      (elim (Option-cases (first_with (has_block c d n) xs)) [
        | inl e ↦ rw (e, get_by_order) (rw (find_lru-ring xs c h) refl)
        | inr (b, e) ↦ rw (e, get_by_order) refl
      ])
