-- ===== src/Kalloc/Init.antt =====
-- `freerange` and `kinit` of kernel/kalloc.c: the free list after boot.
use paddle_os.Prelude.{
  ltb, leb, ◌==◌, All, ℕ, zero, suc, ◌+◌, ◌-◌, ◌*◌, ◌/◌, ◌%◌, ◌≤◌, ◌<◌, ◌≡◌, ◌↔◌, Bool, true, false,
  ◌&&◌, ◌||◌, List, [], ◌∷◌, arith, ok,
}
use paddle_os.Memory.{Mem}
use paddle_os.Kalloc.{
  page_size, kernel_base, phymemstop, pg_round_up, Kmem, freerange_loop, freerange, kinit,
}
use paddle_os.Kalloc.FreeList.{IsPage, IsFresh, nil, Free, kfree-Free}

-- the free list once `n` pages from `p` up are pushed onto `ps`
pages_onto : (n p : ℕ) → List ℕ → List ℕ
pages_onto zero p ps = ps
pages_onto (suc n) p ps = pages_onto n (p + page_size) (p ∷ ps)

abbrev pub has : ℕ → List ℕ → Bool
has a [] = false
has a (p ∷ ps) = (a == p) || has a ps

has-pages_onto :
    (n p a : ℕ) (ps : List ℕ)
    → p % page_size ≡ 0
    → has a (pages_onto n p ps)
      ≡ ((a % page_size == 0) && leb p a && ltb a (p + n * page_size) || has a ps)
unfolding pages_onto
has-pages_onto zero p a ps h = ground arith
has-pages_onto (suc n) p a ps h = ground (arith, has-pages_onto n (p + page_size) a (p ∷ ps))

below-IsFresh : (p : ℕ) (ps : List ℕ) → All (λ q. q < p) ps → IsFresh p ps
below-IsFresh p [] h = tt
below-IsFresh p (q ∷ ps) h = (omega (arith, h.0), below-IsFresh p ps h.1)

below_mono : (p p' : ℕ) (ps : List ℕ) → p ≤ p' → All (λ q. q < p) ps → All (λ q. q < p') ps
below_mono p p' [] l h = tt
below_mono p p' (q ∷ ps) l h = (omega (arith, h.0), below_mono p p' ps l h.1)

module _ {kernel_end : ℕ} (low : 0 < kernel_end) where
  freerange_loop_lem :
      (fuel n p pa_end : ℕ) (k : Kmem) (ps : List ℕ)
      → n < fuel
      → p % page_size ≡ 0
      → kernel_end ≤ p
      → pa_end ≤ phymemstop
      → p + n * page_size ≤ pa_end
      → pa_end < p + n * page_size + page_size
      → Free kernel_end k ps
      → All (λ q. q < p) ps
      → (k' : Kmem) × (freerange_loop kernel_end fuel p pa_end k ≡ ok k')
        × Free kernel_end k' (pages_onto n p ps)
  unfolding freerange_loop pages_onto
  freerange_loop_lem zero n p pa_end k ps fuel al ab hi lo up free below = absurd (omega arith)
  freerange_loop_lem (suc fuel) zero p pa_end k ps lt al ab hi lo up free below =
      (k, ground arith, free)
  freerange_loop_lem (suc fuel) (suc n) p pa_end k ps lt al ab hi lo up free below =
      let page : IsPage kernel_end p = record { aligned = al; above = ab; below = omega arith } in
      let (k1, done, free1, same) = kfree-Free p k low page (below-IsFresh p ps below) free in
      let (k', rest, free') =
        freerange_loop_lem fuel n (p + page_size) pa_end k1 (p ∷ ps) (omega arith) (omega arith)
          (omega arith) hi (omega arith) (omega arith) free1
          (omega arith, below_mono p (p + page_size) ps (omega arith) below) in
      let more : leb (p + page_size) pa_end ≡ true = ground arith in
      (k', rw (more, done) rest, free')

-- The `n` pages from `start` on are all that `kfree` accepts.
has-pages :
    (kernel_end start n : ℕ)
    → start % page_size ≡ 0
    → kernel_end ≤ start
    → start < kernel_end + page_size
    → start + n * page_size ≡ phymemstop
    → (a : ℕ) → (has a (pages_onto n start []) ≡ true) ↔ IsPage kernel_end a
has-pages kernel_end start n al lo up e a = (
  (λ h. ground (arith, has-pages_onto n start a [])),
  λ page. ground (arith, has-pages_onto n start a [], page.aligned, page.above, page.below),
)

-- With the kernel loaded in memory, `kinit` does not panic, the free list after it is well formed,
-- and an address is on it exactly when it is a page between the kernel's end and the end of memory.
pub kinit_lem :
    (kernel_end : ℕ) (m : Mem)
    → kernel_base ≤ kernel_end
    → kernel_end ≤ phymemstop
    → (k : Kmem) × (ps : List ℕ) × (kinit kernel_end m ≡ ok k)
      × Free kernel_end k ps
      × ((a : ℕ) → (has a ps ≡ true) ↔ IsPage kernel_end a)
unfolding kinit freerange
kinit_lem kernel_end m base small =
    let start : ℕ = pg_round_up kernel_end in
    let n : ℕ = (phymemstop - start) / page_size in
    let (k, done, free) =
      freerange_loop_lem {kernel_end = kernel_end} (omega arith) (32768 + 1) n start phymemstop
        (record { mem = m; freelist = 0 }) [] (omega arith) (omega arith) (omega arith)
        (omega arith) (omega arith) (omega arith) nil tt in
    (
      k,
      pages_onto n start [],
      done,
      free,
      has-pages kernel_end start n (omega arith) (omega arith) (omega arith) (omega arith),
    )
