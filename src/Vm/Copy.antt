-- ===== src/Vm/Copy.antt =====
-- What `copyin` of kernel/vm.c does to every byte.
use paddle_os.Prelude.{
  ltb, ◌==◌, if◌then◌else◌, Bool-cases, if-true, if-false, Outcome, ℕ, zero, suc, ◌+◌, ◌-◌, ◌%◌,
  ◌≤◌, ◌<◌, ◌≡◌, refl, sym, ap, ap₂, ◌∙◌, ◌≢◌, ◌⊎◌, inl, inr, Bool, true, false, arith, ok,
}
use paddle_os.Memory.{Mem, memmove}
use paddle_os.Memory.Move.{inside, memmove_lem}
use paddle_os.Kalloc.{Kmem, page_size}
use paddle_os.Vm.{walkaddr, pg_round_down}
use paddle_os.Vm.Walk.{translate, walkaddr-translate}
use paddle_os.Vm.Transfer.{chunk, with_mem, copyin}

-- the page of a user's address by the three levels of the tables, or 0, and the physical address
abbrev pub page_of : (pagetable : ℕ) (k : Kmem) (va : ℕ) → ℕ
page_of pagetable k va = translate pagetable (pg_round_down va) k

abbrev pub physical : (pagetable : ℕ) (k : Kmem) (va : ℕ) → ℕ
physical pagetable k va = page_of pagetable k va + va % page_size

physical-same_page :
    (pagetable va i : ℕ) (k : Kmem)
    → va % page_size + i < page_size
    → physical pagetable k (va + i) ≡ page_of pagetable k va + (va % page_size + i)
physical-same_page pagetable va i k h =
    ap₂ (λ p o. translate pagetable p k + o) (omega (arith, h)) (omega (arith, h))

-- The buffer at `dst` holds no page table and no page of the user.
pub record IsBuffer (pagetable dst len : ℕ) (k : Kmem) : Type 0 where
  pub tables :
      (m : Mem)
      → ((b : ℕ) → inside b dst len ≡ false → m b ≡ k.mem b)
      → (va : ℕ) → translate pagetable va (with_mem k m) ≡ translate pagetable va k
  pub pages :
      (va : ℕ)
      → translate pagetable va k ≢ 0
      → (translate pagetable va k + page_size ≤ dst) ⊎ (dst + len ≤ translate pagetable va k)

-- What `copyin` from the memory `m` returned, with the user's bytes those of `k`.
pub data Copyin (pagetable dst srcva len : ℕ) (k : Kmem) (m : Mem)
    : Outcome (Bool × Kmem) → Type 0 where
  copied :
      (m' : Mem)
      → ((i : ℕ) → i < len → page_of pagetable k (srcva + i) ≢ 0)
      → ((b : ℕ)
          → m' b
            ≡ (if inside b dst len then k.mem (physical pagetable k (srcva + (b - dst))) else m b))
      → Copyin pagetable dst srcva len k m (ok (true, with_mem k m'))
  fault :
      (i : ℕ) (m' : Mem)
      → i < len
      → page_of pagetable k (srcva + i) ≡ 0
      → ((b : ℕ) → inside b dst len ≡ false → m' b ≡ m b)
      → Copyin pagetable dst srcva len k m (ok (false, with_mem k m'))

module _ (pagetable d l : ℕ) (k : Kmem) (buffer : IsBuffer pagetable d l k) where
  -- the memory agrees with `k` outside the buffer
  abbrev Agrees : Mem → Type 0
  Agrees m = (b : ℕ) → inside b d l ≡ false → m b ≡ k.mem b

  walk-Agrees :
      (va : ℕ) (m : Mem)
      → Agrees m
      → walkaddr pagetable va (with_mem k m) ≡ ok (translate pagetable va k)
  walk-Agrees va m g = walkaddr-translate pagetable va (with_mem k m) ∙ ap ok (buffer.tables m g va)

  -- a byte of a user's page
  user_byte :
      (m : Mem) (va o : ℕ)
      → Agrees m
      → translate pagetable va k ≢ 0
      → o < page_size
      → m (translate pagetable va k + o) ≡ k.mem (translate pagetable va k + o)
  user_byte m va o g z h = g (translate pagetable va k + o) (ground (arith, buffer.pages va z, h))

  -- the memory after one round
  abbrev round : (dst srcva len : ℕ) → Mem → Mem
  round dst srcva len m =
      memmove dst (page_of pagetable k srcva + (srcva - pg_round_down srcva)) (chunk srcva len) m

  -- the bytes of one round
  one_round :
      (m : Mem) (dst srcva len b : ℕ)
      → Agrees m
      → page_of pagetable k srcva ≢ 0
      → round dst srcva len m b ≡ (
          if inside b dst (chunk srcva len)
          then k.mem (physical pagetable k (srcva + (b - dst)))
          else m b)
  one_round m dst srcva len b g z =
      memmove_lem dst (page_of pagetable k srcva + (srcva - pg_round_down srcva)) (chunk srcva len)
        m b
      ∙ (elim (Bool-cases (inside b dst (chunk srcva len))) [
        | inl e ↦ rw e (
            ap m (omega arith)
            ∙ user_byte m (pg_round_down srcva) (srcva % page_size + (b - dst)) g z
                (ground (arith, e))
            ∙ ap k.mem (sym (physical-same_page pagetable srcva (b - dst) k (ground (arith, e)))))
        | inr e ↦ rw e refl
      ])

  -- the rounds after the one at `srcva`
  abbrev Later : (dst srcva len : ℕ) (m : Mem) (r : Outcome (Bool × Kmem)) → Type 0
  Later dst srcva len m r =
      Copyin pagetable (dst + chunk srcva len) (pg_round_down srcva + page_size)
        (len - chunk srcva len) k (round dst srcva len m) r

  all_mapped :
      (srcva len : ℕ)
      → page_of pagetable k srcva ≢ 0
      → ((i : ℕ)
          → i < len - chunk srcva len
          → page_of pagetable k (pg_round_down srcva + page_size + i) ≢ 0)
      → (i : ℕ) → i < len
      → page_of pagetable k (srcva + i) ≢ 0
  all_mapped srcva len z a i h q = elim (Bool-cases (ltb i (chunk srcva len))) [
    | inl e ↦ z (ap (λ v. translate pagetable v k) (ground (arith, e)) ∙ q)
    | inr e ↦
        a (i - chunk srcva len) (ground (arith, e, h))
          (ap (page_of pagetable k) (ground (arith, e, h)) ∙ q)
  ]

  -- the bytes that the rounds leave
  all_bytes :
      (m m' : Mem) (dst srcva len : ℕ)
      → Agrees m
      → page_of pagetable k srcva ≢ 0
      → ((b : ℕ)
          → m' b ≡ (
              if inside b (dst + chunk srcva len) (len - chunk srcva len)
              then k.mem (
                  physical pagetable k
                    (pg_round_down srcva + page_size + (b - (dst + chunk srcva len))))
              else round dst srcva len m b))
      → (b : ℕ)
      → m' b ≡ (if inside b dst len then k.mem (physical pagetable k (srcva + (b - dst))) else m b)
  all_bytes m m' dst srcva len g z f b =
      elim (Bool-cases (inside b (dst + chunk srcva len) (len - chunk srcva len))) [
        | inl e ↦
            f b
            ∙ if-true (inside b (dst + chunk srcva len) (len - chunk srcva len)) _ _ e
            ∙ ap (λ v. k.mem (physical pagetable k v)) (ground (arith, e))
            ∙ sym (if-true (inside b dst len) _ _ (ground (arith, e)))
        | inr e ↦
            f b
            ∙ if-false (inside b (dst + chunk srcva len) (len - chunk srcva len)) _ _ e
            ∙ one_round m dst srcva len b g z
            ∙ ap (λ q. if q then k.mem (physical pagetable k (srcva + (b - dst))) else m b)
                {y = inside b dst len} (ground (arith, e))
      ]

  after_round :
      (m : Mem) (dst srcva len : ℕ) (r : Outcome (Bool × Kmem))
      → Agrees m
      → page_of pagetable k srcva ≢ 0
      → Later dst srcva len m r
      → Copyin pagetable dst srcva len k m r
  after_round m dst srcva len r g z (copied m' a f) =
      copied m' (all_mapped srcva len z a) (all_bytes m m' dst srcva len g z f)
  after_round m dst srcva len r g z (fault i m' h e f) =
      fault (chunk srcva len + i) m' (omega (arith, h))
        (ap (page_of pagetable k) (omega (arith, h)) ∙ e)
        (λ b q.
          f b (ground (arith, q))
          ∙ one_round m dst srcva len b g z
          ∙ if-false (inside b dst (chunk srcva len)) _ _ (ground (arith, q)))

  nothing :
      (dst srcva len : ℕ) (m : Mem)
      → (len == 0) ≡ true
      → Copyin pagetable dst srcva len k m (ok (true, with_mem k m))
  nothing dst srcva len m e =
      copied m (λ i h. absurd (ground (arith, e, h)))
        (λ b. sym (if-false (inside b dst len) _ _ (ground (arith, e))))

  one_Agrees :
      (m : Mem) (dst srcva len : ℕ)
      → Agrees m
      → page_of pagetable k srcva ≢ 0
      → d ≤ dst
      → dst + len ≤ d + l
      → Agrees (round dst srcva len m)
  one_Agrees m dst srcva len g z lo hi b q =
      one_round m dst srcva len b g z
      ∙ if-false (inside b dst (chunk srcva len)) _ _ (ground (arith, q, lo, hi))
      ∙ g b q

  copyin_loop :
      (fuel dst srcva len : ℕ) (m : Mem)
      → Agrees m
      → d ≤ dst
      → dst + len ≤ d + l
      → len ≤ fuel
      → Copyin pagetable dst srcva len k m (copyin fuel pagetable dst srcva len (with_mem k m))
  unfolding copyin
  copyin_loop zero dst srcva len m g lo hi h =
      let e : (len == 0) ≡ true = ground (arith, h) in rw e (nothing dst srcva len m e)
  copyin_loop (suc fuel) dst srcva len m g lo hi h = elim (Bool-cases (len == 0)) [
    | inl e ↦ rw e (nothing dst srcva len m e)
    | inr e ↦
        rw (e, walk-Agrees (pg_round_down srcva) m g)
          (elim (Bool-cases (page_of pagetable k srcva == 0)) [
            | inl z ↦ rw z (
                fault 0 m (ground (arith, e))
                  (ap (page_of pagetable k) {y = srcva} (omega arith) ∙ ground (arith, z))
                  (λ b q. refl))
            | inr z ↦ rw z (
                after_round m dst srcva len
                  (copyin fuel pagetable (dst + chunk srcva len) (pg_round_down srcva + page_size)
                    (len - chunk srcva len) (with_mem k (round dst srcva len m)))
                  g (ground (arith, z))
                  (copyin_loop fuel (dst + chunk srcva len) (pg_round_down srcva + page_size)
                    (len - chunk srcva len) (round dst srcva len m)
                    (one_Agrees m dst srcva len g (ground (arith, z)) lo hi) (omega (arith, lo))
                    (omega (arith, hi)) (ground (arith, h, e))))
          ])
  ]

-- `copyin` into a buffer that holds no page table and no page of the user copies, when the pages
-- of all `len` bytes are mapped for the user, each byte from its physical address and writes
-- nothing else; when some page is not mapped it fails and writes nothing outside the buffer.
pub copyin_lem :
    (pagetable dst srcva len : ℕ) (k : Kmem)
    → IsBuffer pagetable dst len k
    → Copyin pagetable dst srcva len k k.mem (copyin len pagetable dst srcva len k)
copyin_lem pagetable dst srcva len k buffer =
    copyin_loop pagetable dst len k buffer len dst srcva len k.mem (λ b h. refl) (omega arith)
      (omega arith) (omega arith)
