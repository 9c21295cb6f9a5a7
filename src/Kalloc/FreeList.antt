-- ===== src/Kalloc/FreeList.antt =====
-- The free list of kernel/kalloc.c as a list of distinct pages, and what its operations do to it.
use paddle_os.Prelude.{
  ltb, leb, ◌==◌, if◌then◌else◌, Bool-cases, All, ℕ, ◌+◌, ◌%◌, ◌^◌, ◌≤◌, ◌<◌, ◌≡◌, refl, ◌≢◌, ◌↔◌,
  inl, inr, Bool, false, not, ◌||◌, List, [], ◌∷◌, arith, ok, panic,
}
use paddle_os.Memory.{Mem, memset}
use paddle_os.Memory.Move.{inside, memset_lem}
use paddle_os.Memory.Words.{
  load_word, store_word, store_word-outside, load_word-same, load_word-store_word,
}
use paddle_os.Kalloc.{page_size, phymemstop, Kmem, kfree, kalloc}

-- a page that `kfree` accepts: aligned, behind the kernel and within the memory
pub record IsPage (kernel_end pa : ℕ) : Type 0 where
  pub aligned : pa % page_size ≡ 0
  pub above : kernel_end ≤ pa
  pub below : pa < phymemstop

abbrev pub IsFresh : ℕ → List ℕ → Type 0
IsFresh p ps = All (λ q. p ≢ q) ps

-- from `p` the links lead through the distinct pages `ps` to the null pointer
pub data Chain (kernel_end : ℕ) (m : Mem) : ℕ → List ℕ → Type 0 where
  nil : Chain kernel_end m 0 []
  cons :
      {p : ℕ} {ps : List ℕ}
      → p ≢ 0
      → IsPage kernel_end p
      → IsFresh p ps
      → Chain kernel_end m (load_word 8 m p) ps
      → Chain kernel_end m p (p ∷ ps)

-- the allocator's state holds the free pages `ps`
abbrev pub Free : (kernel_end : ℕ) → Kmem → List ℕ → Type 0
Free kernel_end k ps = Chain kernel_end k.mem k.freelist ps

-- the memory after `kfree pa`
freed : ℕ → Kmem → Mem
freed pa k = store_word 8 (memset pa 1 page_size k.mem) pa k.freelist

freed-same : (pa : ℕ) (k : Kmem) (b : ℕ) → inside b pa page_size ≡ false → freed pa k b ≡ k.mem b
unfolding freed
freed-same pa k b h = ground (
  arith,
  store_word-outside 8 (memset pa 1 page_size k.mem) pa k.freelist b,
  memset_lem pa 1 page_size k.mem b,
)

module _ {kernel_end : ℕ} where
  -- Two pages do not overlap.
  apart :
      (p q i : ℕ)
      → IsPage kernel_end p
      → IsPage kernel_end q
      → p ≢ q
      → i < page_size
      → inside (q + i) p page_size ≡ false
  apart p q i hp hq ne l = ground (arith, hp.aligned, hq.aligned)

  -- A change within the page `p` spares the list of other pages.
  frame_page :
      {m : Mem} (m' : Mem) (p : ℕ)
      → ((b : ℕ) → inside b p page_size ≡ false → m' b ≡ m b)
      → IsPage kernel_end p
      → {q : ℕ} {ps : List ℕ} → Chain kernel_end m q ps
      → IsFresh p ps
      → Chain kernel_end m' q ps
  frame_page m' p same page nil fresh = nil
  frame_page {m} m' p same page (cons {p = r} nz page' fresh' rest) fresh = cons nz page' fresh' (
      rw
        (load_word-same 8 m m' r
          (λ i l. same (r + i) (apart p r i page page' fresh.0 (omega arith))))
        (frame_page m' p same page rest fresh.1))

  Chain-head :
      {m : Mem} {q p : ℕ} {ps : List ℕ}
      → Chain kernel_end m q (p ∷ ps)
      → (q ≡ p)
        × (p ≢ 0)
        × IsPage kernel_end p
        × IsFresh p ps
        × Chain kernel_end m (load_word 8 m p) ps
  Chain-head (cons nz page fresh rest) = (refl, nz, page, fresh, rest)

  Chain-nil : {m : Mem} {q : ℕ} → Chain kernel_end m q [] → q ≡ 0
  Chain-nil nil = refl

  -- Where the list starts is null or the address of a page.
  head-small : {m : Mem} {p : ℕ} {ps : List ℕ} → Chain kernel_end m p ps → p < 256 ^ 8
  head-small nil = omega arith
  head-small (cons nz page fresh rest) = omega (arith, page.below)

  kfree-ok :
      (pa : ℕ) (k : Kmem)
      → IsPage kernel_end pa
      → kfree kernel_end pa k ≡ ok (record { mem = freed pa k; freelist = pa })
  unfolding kfree freed
  kfree-ok pa k page = ground (arith, page.aligned, page.above, page.below)

  -- Freeing a page that is not on the list succeeds, puts it in front, and writes only into it.
  pub kfree-Free :
      (pa : ℕ) {ps : List ℕ} (k : Kmem)
      → 0 < kernel_end
      → IsPage kernel_end pa
      → IsFresh pa ps
      → Free kernel_end k ps
      → (k' : Kmem) × (kfree kernel_end pa k ≡ ok k')
        × Free kernel_end k' (pa ∷ ps)
        × ((b : ℕ) → inside b pa page_size ≡ false → k'.mem b ≡ k.mem b)
  unfolding freed
  kfree-Free pa {ps} k low page fresh free = (
    record { mem = freed pa k; freelist = pa },
    kfree-ok pa k page,
    cons (omega (arith, page.above)) page fresh (
        rw (load_word-store_word 8 (memset pa 1 page_size k.mem) pa k.freelist (head-small free))
          (frame_page (freed pa k) pa (freed-same pa k) page free fresh)),
    freed-same pa k,
  )

  -- `kfree` panics exactly at an address that is no page of the managed memory.
  pub kfree-panic_iff :
      (pa : ℕ) (k : Kmem) → (kfree kernel_end pa k ≡ panic) ↔ (¬ IsPage kernel_end pa)
  unfolding kfree
  kfree-panic_iff pa k = (
    (λ h page. ground (arith, page.aligned, page.above, page.below)),
    λ h. not_page (λ a b c. h (record { aligned = a; above = b; below = c })),
  )
    where
      not_page :
          (pa % page_size ≡ 0 → kernel_end ≤ pa → pa < phymemstop → ⊥)
          → kfree kernel_end pa k ≡ panic
      not_page h = elim (Bool-cases guard) [
        | inl bad ↦ rw bad
        | inr good ↦ absurd (h (ground arith) (ground arith) (ground arith))
      ]
        where
          guard : Bool
          guard = not (pa % page_size == 0) || ltb pa kernel_end || leb phymemstop pa

  -- With a free page, `kalloc` hands out the first one, filled with 3; the others stay on the list,
  -- and no byte outside the page changes.
  pub kalloc-Free :
      {p : ℕ} {ps : List ℕ} (k : Kmem)
      → Free kernel_end k (p ∷ ps)
      → let (r, k') = kalloc k in
        (r ≡ p)
        × Free kernel_end k' ps
        × ((b : ℕ) → k'.mem b ≡ (if inside b p page_size then 3 else k.mem b))
  unfolding kalloc
  kalloc-Free {p} k free =
      let (e, nz, page, fresh, rest) = Chain-head free in
      let got : (k.freelist == 0) ≡ false = ground (arith, e, nz) in
      rw got (
        e,
        rw e (
            frame_page (memset p 3 page_size k.mem) p
              (λ b o. ground (arith, memset_lem p 3 page_size k.mem b)) page rest fresh),
        λ b. rw e (memset_lem p 3 page_size k.mem b),
      )

  -- Without one it returns the null pointer and changes nothing.
  pub kalloc-empty : (k : Kmem) → Free kernel_end k [] → kalloc k ≡ (0, k)
  unfolding kalloc
  kalloc-empty k free = ground (arith, Chain-nil free)
