-- ===== src/Bio/Keeps.antt =====
-- The buffer cache as a map from blocks to buffers.
use paddle_os.Prelude.{
  ◌==◌, Bool-cases, Option-cases, put, if-true, if-false, Outcome, ◌>>=◌, ℕ, ◌+◌, ◌%◌, ◌^◌, ◌<◌,
  ◌≡◌, refl, sym, ap, ap₂, ◌∙◌, ◌≢◌, ◌⊎◌, inl, inr, Bool, true, false, Option, none, some, List, [],
  ◌∷◌, arith, ok, panic,
}
use paddle_os.Bio.{Cache, take_buffer, bget, fill, bread}
use paddle_os.Bio.Chain.{mem}
use paddle_os.Bio.Order.{IsOrder}
use paddle_os.Bio.Get.{
  first_with, reversed, mem-reversed, has_block, is_idle, get_by_order, bget-get_by_order,
}

-- `xs` are the buffers in the order of their last use. A block of a device other than 0 is in one
-- buffer at most.
pub record IsCache (c : Cache) (xs : List ℕ) : Type 0 where
  pub order : IsOrder c xs
  pub unique :
      (i j : ℕ)
      → mem i xs ≡ true
      → mem j xs ≡ true
      → 0 < c.dev i
      → c.dev i ≡ c.dev j
      → c.blockno i ≡ c.blockno j
      → i ≡ j

first_with-some :
    (p : ℕ → Bool) (xs : List ℕ) (b : ℕ)
    → first_with p xs ≡ some b
    → (p b ≡ true) × (mem b xs ≡ true)
unfolding first_with
first_with-some p [] b e = cc
first_with-some p (x ∷ xs) b e = elim (Bool-cases (p x)) [
  | inl q ↦ ground (arith, e, q)
  | inr q ↦ ground (arith, q, first_with-some p xs b (ground (arith, e, q)))
]

first_with-none :
    (p : ℕ → Bool) (xs : List ℕ) (b : ℕ) → first_with p xs ≡ none → mem b xs ≡ true → p b ≡ false
unfolding first_with
first_with-none p [] b e m = cc
first_with-none p (x ∷ xs) b e m = ground (arith, e, m, first_with-none p xs b)

-- what `bget` did: it found the block, or gave it an idle buffer, or every buffer is in use
pub data Got (d n : ℕ) (xs : List ℕ) (c : Cache) : Outcome (ℕ × Cache) → Type 0 where
  hit :
      (b : ℕ)
      → mem b xs ≡ true
      → has_block c d n b ≡ true
      → Got d n xs c (ok (b, record c { refcnt = put c.refcnt b ((c.refcnt b + 1) % 2 ^ 32) }))
  fresh :
      (b : ℕ)
      → mem b xs ≡ true
      → c.refcnt b ≡ 0
      → ((j : ℕ) → mem j xs ≡ true → has_block c d n j ≡ false)
      → Got d n xs c (ok (b, take_buffer b d n c))
  full : ((j : ℕ) → mem j xs ≡ true → is_idle c j ≡ false) → Got d n xs c panic

Got-missed :
    (d n : ℕ) (xs : List ℕ) (c : Cache) (o : Option ℕ)
    → first_with (has_block c d n) xs ≡ none
    → first_with (is_idle c) (reversed xs []) ≡ o
    → Got d n xs c (elim o [ none ↦ panic | some b ↦ ok (b, take_buffer b d n c) ])
Got-missed d n xs c none e q = full (λ j m.
    first_with-none (is_idle c) (reversed xs []) j q (ground (arith, m, mem-reversed j xs [])))
Got-missed d n xs c (some b) e q =
    let (z, m) = first_with-some (is_idle c) (reversed xs []) b q in
    fresh b (ground (arith, m, mem-reversed b xs [])) (ground (arith, z))
      (λ j k. first_with-none (has_block c d n) xs j e k)

Got-get_by_order : (d n : ℕ) (xs : List ℕ) (c : Cache) → Got d n xs c (get_by_order d n xs c)
Got-get_by_order d n xs c = elim (Option-cases (first_with (has_block c d n) xs)) [
  | inl e ↦
      rw (e, get_by_order) (Got-missed d n xs c (first_with (is_idle c) (reversed xs [])) e refl)
  | inr (b, e) ↦
      let (z, m) = first_with-some (has_block c d n) xs b e in rw (e, get_by_order) (hit b m z)
]

IsOrder-take_buffer :
    (b d n : ℕ) (xs : List ℕ) (c : Cache) → IsOrder c xs → IsOrder (take_buffer b d n c) xs
unfolding take_buffer
IsOrder-take_buffer b d n xs c h = record {
  linked = h.linked;
  distinct = h.distinct;
  no_head = h.no_head;
  count = h.count;
}

IsCache-fresh :
    (b d n : ℕ) (xs : List ℕ) (c : Cache)
    → 0 < d
    → IsCache c xs
    → ((j : ℕ) → mem j xs ≡ true → has_block c d n j ≡ false)
    → IsCache (take_buffer b d n c) xs
unfolding take_buffer
IsCache-fresh b d n xs c some_dev h none' = record {
  order = IsOrder-take_buffer b d n xs c h.order;
  unique = λ i j a k p e f.
      ground (arith, some_dev, a, k, p, e, f, none' i a, none' j k, h.unique i j a k);
}

pub IsCache-counted :
    (r : ℕ → ℕ) (xs : List ℕ) (c : Cache) → IsCache c xs → IsCache (record c { refcnt = r }) xs
IsCache-counted r xs c h = record {
  order = record {
    linked = h.order.linked;
    distinct = h.order.distinct;
    no_head = h.order.no_head;
    count = h.order.count;
  };
  unique = h.unique;
}

-- `current d n` are the contents of a block as they were last written, to its buffer or to the
-- disk: every valid buffer has those of its block.
pub record Coherent (current : ℕ → ℕ → List ℕ) (xs : List ℕ) (c : Cache) : Type 0 where
  pub holds :
      (j : ℕ) → mem j xs ≡ true → c.valid j ≡ true → c.bytes j ≡ current (c.dev j) (c.blockno j)

-- What `bread` of the block `n` of device `d` left in the buffer `b` and in the others.
pub record HasRead (current : ℕ → ℕ → List ℕ) (d n : ℕ) (xs : List ℕ) (c : Cache) (b : ℕ)
    (c' : Cache) : Type 0 where
  pub cache : IsCache c' xs
  pub block : (c'.dev b ≡ d) × (c'.blockno b ≡ n)
  pub loaded : c'.valid b ≡ true
  pub contents : c'.bytes b ≡ current d n
  pub coherent : Coherent current xs c'
  pub evicts : (has_block c d n b ≡ true) ⊎ (c.refcnt b ≡ 0)
  pub held : 0 < c'.refcnt b
  pub others :
      (j : ℕ)
      → b ≢ j
      → (c'.dev j ≡ c.dev j)
        × (c'.blockno j ≡ c.blockno j)
        × (c'.refcnt j ≡ c.refcnt j)
        × (c'.valid j ≡ c.valid j)
        × (c'.bytes j ≡ c.bytes j)

pub data ReadBlock (current : ℕ → ℕ → List ℕ) (d n : ℕ) (xs : List ℕ) (c : Cache)
    : Outcome (ℕ × Cache) → Type 0 where
  got :
      (b : ℕ) (c' : Cache) → HasRead current d n xs c b c' → ReadBlock current d n xs c (ok (b, c'))
  no_buffer : ((j : ℕ) → mem j xs ≡ true → 0 < c.refcnt j) → ReadBlock current d n xs c panic

IsCache-loaded :
    (disk : ℕ → ℕ → List ℕ) (b : ℕ) (xs : List ℕ) (c : Cache)
    → IsCache c xs
    → IsCache
        (record c {
          bytes = put c.bytes b (disk (c.dev b) (c.blockno b));
          valid = put c.valid b true;
        })
        xs
IsCache-loaded disk b xs c h = record {
  order = record {
    linked = h.order.linked;
    distinct = h.order.distinct;
    no_head = h.order.no_head;
    count = h.order.count;
  };
  unique = h.unique;
}

module _ (disk current : ℕ → ℕ → List ℕ) (d n : ℕ) (xs : List ℕ) (c : Cache) where
  all_hold :
      (b : ℕ) (c' : Cache)
      → has_block c' d n b ≡ true
      → c'.bytes b ≡ current d n
      → ((j : ℕ)
          → b ≢ j
          → mem j xs ≡ true
          → c'.valid j ≡ true
          → c'.bytes j ≡ current (c'.dev j) (c'.blockno j))
      → (j : ℕ) → mem j xs ≡ true
      → c'.valid j ≡ true
      → c'.bytes j ≡ current (c'.dev j) (c'.blockno j)
  all_hold b c' k e z j m l = elim (Bool-cases (b == j)) [
    | inl q ↦
        let same : b ≡ j = ground (arith, q) in
        ap c'.bytes (sym same)
        ∙ e
        ∙ sym (
            ap₂ current (ap c'.dev (sym same) ∙ ground (arith, k))
              (ap c'.blockno (sym same) ∙ ground (arith, k)))
    | inr q ↦ z j (ground (arith, q)) m l
  ]

  filled :
      (b : ℕ) (c' : Cache)
      → has_block c' d n b ≡ true
      → disk d n ≡ current d n
      → put c'.bytes b (disk (c'.dev b) (c'.blockno b)) b ≡ current d n
  filled b c' k e =
      if-true (b == b) _ (c'.bytes b) (ground arith)
      ∙ ap₂ disk (ground (arith, k)) (ground (arith, k))
      ∙ e

  others_hold :
      (b : ℕ) (c' : Cache)
      → ((j : ℕ)
          → b ≢ j
          → mem j xs ≡ true
          → c'.valid j ≡ true
          → c'.bytes j ≡ current (c'.dev j) (c'.blockno j))
      → (j : ℕ) → b ≢ j
      → mem j xs ≡ true
      → put c'.valid b true j ≡ true
      → put c'.bytes b (disk (c'.dev b) (c'.blockno b)) j ≡ current (c'.dev j) (c'.blockno j)
  others_hold b c' z j x m l =
      if-false (b == j) _ (c'.bytes j) (ground (arith, x)) ∙ z j x m (ground (arith, x, l))

  HasRead-fill :
      (b : ℕ) (c' : Cache)
      → IsCache c' xs
      → has_block c' d n b ≡ true
      → (c'.valid b ≡ true → c'.bytes b ≡ current d n)
      → (c'.valid b ≡ false → disk d n ≡ current d n)
      → ((j : ℕ)
          → b ≢ j
          → mem j xs ≡ true
          → c'.valid j ≡ true
          → c'.bytes j ≡ current (c'.dev j) (c'.blockno j))
      → (has_block c d n b ≡ true) ⊎ (c.refcnt b ≡ 0)
      → 0 < c'.refcnt b
      → ((j : ℕ)
          → b ≢ j
          → (c'.dev j ≡ c.dev j)
            × (c'.blockno j ≡ c.blockno j)
            × (c'.refcnt j ≡ c.refcnt j)
            × (c'.valid j ≡ c.valid j)
            × (c'.bytes j ≡ c.bytes j))
      → HasRead current d n xs c b (fill disk b c')
  unfolding fill
  HasRead-fill b c' h k v w z e r o = elim (Bool-cases (c'.valid b)) [
    | inl q ↦
        rw (q, fill)
          (record {
            cache = h;
            block = ground (arith, k);
            loaded = q;
            contents = v q;
            coherent = record { holds = all_hold b c' k (v q) z };
            evicts = e;
            held = r;
            others = o;
          })
    | inr q ↦
        rw (q, fill)
          (record {
            cache = IsCache-loaded disk b xs c' h;
            block = ground (arith, k);
            loaded = ground arith;
            contents = filled b c' k (w q);
            coherent = record {
              holds =
                  all_hold b
                    (record c' {
                      bytes = put c'.bytes b (disk (c'.dev b) (c'.blockno b));
                      valid = put c'.valid b true;
                    })
                    k (filled b c' k (w q)) (λ j x m l. others_hold b c' z j x m l);
            };
            evicts = e;
            held = r;
            others = λ j x. ground (arith, x, o j x);
          })
  ]

  ReadBlock-bget :
      (r : Outcome (ℕ × Cache))
      → 0 < d
      → IsCache c xs
      → Coherent current xs c
      → (((j : ℕ) → mem j xs ≡ true → has_block c d n j ≡ true → c.valid j ≡ false)
          → disk d n ≡ current d n)
      → ((j : ℕ) → c.refcnt j + 1 < 2 ^ 32)
      → Got d n xs c r
      → ReadBlock current d n xs c (r >>= λ s. ok (s.0, fill disk s.0 s.1))
  unfolding take_buffer
  ReadBlock-bget r some_dev h g u b (hit i m k) = got i _ (
      HasRead-fill i (record c { refcnt = put c.refcnt i ((c.refcnt i + 1) % 2 ^ 32) })
        (IsCache-counted _ xs c h) k
        (λ q. g.holds i m q ∙ ap₂ current (ground (arith, k)) (ground (arith, k)))
        (λ q. u (λ j x y.
          ap c.valid (
            h.unique j i x m (ground (arith, some_dev, y)) (ground (arith, k, y))
              (ground (arith, k, y)))
          ∙ q))
        (λ j x y l. g.holds j y l) (inl k) (ground (arith, b i))
        (λ j x. (refl, refl, ground (arith, x), refl, refl)))
  ReadBlock-bget r some_dev h g u b (fresh i m z f) = got i _ (
      HasRead-fill i (take_buffer i d n c) (IsCache-fresh i d n xs c some_dev h f) (ground arith)
        (λ q. absurd (ground (arith, q))) (λ q. u (λ j x y. absurd (ground (arith, f j x, y))))
        (λ j x y l.
          g.holds j y (ground (arith, x, l))
          ∙ sym (
              ap₂ current (if-false (i == j) d (c.dev j) (ground (arith, x)))
                (if-false (i == j) n (c.blockno j) (ground (arith, x)))))
        (inr z) (ground arith)
        (λ j x. (ground (arith, x), ground (arith, x), ground (arith, x), ground (arith, x), refl)))
  ReadBlock-bget r some_dev h g u b (full f) = no_buffer (λ j m. ground (arith, f j m))

-- Let `current` be what each block was last written with, to its buffer or to the disk: every valid
-- buffer has that of its block, and the disk has that of the block `n` where no valid buffer is
-- its. Then `bread` returns a valid buffer of the block with its current contents: the one that had
-- the block, or an idle one. Every block is still in one buffer at most, every valid buffer has the
-- current contents of its block, all other buffers keep block, count, bytes and `valid`, and
-- `bread` panics only where every buffer is in use.
pub bread_lem :
    (disk current : ℕ → ℕ → List ℕ) (d n : ℕ) (xs : List ℕ) (c : Cache)
    → 0 < d
    → IsCache c xs
    → Coherent current xs c
    → (((j : ℕ) → mem j xs ≡ true → has_block c d n j ≡ true → c.valid j ≡ false)
        → disk d n ≡ current d n)
    → ((j : ℕ) → c.refcnt j + 1 < 2 ^ 32)
    → ReadBlock current d n xs c (bread disk d n c)
unfolding bread
bread_lem disk current d n xs c some_dev h g u b =
    ReadBlock-bget disk current d n xs c (bget d n c) some_dev h g u b
      (rw (bget-get_by_order d n xs c h.order) (Got-get_by_order d n xs c))
