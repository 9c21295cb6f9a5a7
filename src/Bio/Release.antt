-- ===== src/Bio/Release.antt =====
-- `binit` and `brelse` of kernel/bio.c against the cache of Bio/Keeps.
use paddle_os.Prelude.{
  ◌==◌, if◌then◌else◌, Bool-cases, put, ℕ, zero, suc, ◌+◌, ◌-◌, ◌%◌, ◌^◌, ◌<◌, ◌≡◌, refl, sym, ap,
  ◌∙◌, inl, inr, true, false, List, ◌∷◌, ◌++◌, arith,
}
use paddle_os.Bio.{Cache, nbuf, head, binit_from, binit, brelse, move_to_front}
use paddle_os.Bio.Chain.{mem, mem-append}
use paddle_os.Bio.Order.{below, binit-IsOrder, move_to_front-IsOrder}
use paddle_os.Bio.Keeps.{IsCache, IsCache-counted}

binit_from-dev : (left b : ℕ) (c : Cache) (i : ℕ) → (binit_from left b c).dev i ≡ c.dev i
unfolding binit_from
binit_from-dev zero b c i = refl
binit_from-dev (suc left) b c i = binit_from-dev left (suc b) _ i

no_dev : (c : Cache) (i : ℕ) → ((i : ℕ) → c.dev i ≡ 0) → ¬ (0 < (binit c).dev i)
unfolding binit
no_dev c i z h = ground (
  arith,
  h,
  z i,
  binit_from-dev nbuf 0 (record c { next = put c.next head head; prev = put c.prev head head }) i,
)

-- After `binit` of the zeroed buffers, the list has every buffer, and no block is in two of them.
pub binit-IsCache : (c : Cache) → ((i : ℕ) → c.dev i ≡ 0) → IsCache (binit c) (below nbuf)
binit-IsCache c z = record {
  order = binit-IsOrder c;
  unique = λ i j a b p e f. absurd (no_dev c i z p);
}

mem-moved : (a b : ℕ) (pre post : List ℕ) → mem a (b ∷ (pre ++ post)) ≡ mem a (pre ++ b ∷ post)
mem-moved a b pre post = ground (arith, mem-append a pre (b ∷ post), mem-append a pre post)

move_to_front-same :
    (b : ℕ) (c : Cache)
    → ((move_to_front b c).dev ≡ c.dev)
      × ((move_to_front b c).blockno ≡ c.blockno)
      × ((move_to_front b c).refcnt ≡ c.refcnt)
unfolding move_to_front
move_to_front-same b c = (refl, refl, refl)

IsCache-moved :
    (b : ℕ) (pre post : List ℕ) (c : Cache)
    → IsCache c (pre ++ b ∷ post)
    → IsCache (move_to_front b c) (b ∷ (pre ++ post))
unfolding move_to_front
IsCache-moved b pre post c h = record {
  order = move_to_front-IsOrder b pre post c h.order;
  unique =
      λ i j m k. h.unique i j (sym (mem-moved i b pre post) ∙ m) (sym (mem-moved j b pre post) ∙ k);
}

abbrev one_less : ℕ → Cache → Cache
one_less b c = record c { refcnt = put c.refcnt b ((c.refcnt b + (2 ^ 32 - 1)) % 2 ^ 32) }

goes_on :
    (r : ℕ) → 0 < r → r < 2 ^ 32 → (r == 1) ≡ false → ((r + (2 ^ 32 - 1)) % 2 ^ 32 == 0) ≡ false
goes_on r p l e = ground (arith, p, l, e)

stops : (r : ℕ) → (r == 1) ≡ true → ((r + (2 ^ 32 - 1)) % 2 ^ 32 == 0) ≡ true
stops r e = ground (arith, e)

brelse-last :
    (b : ℕ) (c : Cache) → (c.refcnt b == 1) ≡ true → brelse b c ≡ move_to_front b (one_less b c)
unfolding brelse
brelse-last b c e = rw (stops (c.refcnt b) e) refl

brelse-more :
    (b : ℕ) (c : Cache)
    → 0 < c.refcnt b
    → c.refcnt b < 2 ^ 32
    → (c.refcnt b == 1) ≡ false
    → brelse b c ≡ one_less b c
unfolding brelse
brelse-more b c p l e = rw (goes_on (c.refcnt b) p l e) refl

less :
    (b : ℕ) (c : Cache)
    → 0 < c.refcnt b
    → c.refcnt b < 2 ^ 32
    → (one_less b c).refcnt b + 1 ≡ c.refcnt b
less b c p l = ground (arith, p, l)

-- `brelse` of a buffer that is held gives one reference back. It keeps the cache well formed, and
-- with the last reference it makes the buffer the most recently used one and keeps the others in
-- their order.
pub brelse_lem :
    (b : ℕ) (pre post : List ℕ) (c : Cache)
    → 0 < c.refcnt b
    → c.refcnt b < 2 ^ 32
    → IsCache c (pre ++ b ∷ post)
    → ((brelse b c).refcnt b + 1 ≡ c.refcnt b)
      × IsCache (brelse b c) (if c.refcnt b == 1 then b ∷ (pre ++ post) else pre ++ b ∷ post)
brelse_lem b pre post c p l h = elim (Bool-cases (c.refcnt b == 1)) [
  | inl e ↦ rw e (
      rw (brelse-last b c e) (
        ap (λ f. f b + 1) (move_to_front-same b (one_less b c)).2 ∙ less b c p l,
        IsCache-moved b pre post (one_less b c) (IsCache-counted _ (pre ++ b ∷ post) c h),
      ))
  | inr e ↦
      rw e (rw (brelse-more b c p l e) (less b c p l, IsCache-counted _ (pre ++ b ∷ post) c h))
]
