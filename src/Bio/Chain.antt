-- ===== src/Bio/Chain.antt =====
-- Doubly linked lists: the nodes between two ends, and what unlinking and linking do to them.
use paddle_os.Prelude.{
  ◌==◌, put, All, ℕ, ◌≡◌, refl, sym, ap, ◌∙◌, ◌≢◌, ◌⊎◌, inl, inr, Bool, true, false, ◌||◌, List, [],
  ◌∷◌, ◌++◌, arith,
}

abbrev pub mem : ℕ → List ℕ → Bool
mem a [] = false
mem a (x ∷ xs) = (x == a) || mem a xs

abbrev pub Distinct : List ℕ → Type 0
Distinct [] = Unit
Distinct (x ∷ xs) = (mem x xs ≡ false) × Distinct xs

-- From the node `a`, over the nodes `xs`, to the node `z`, forward by `next` and back by `prev`.
abbrev pub Chain : (next prev : ℕ → ℕ) (a : ℕ) → List ℕ → (z : ℕ) → Type 0
Chain nx pv a [] z = (nx a ≡ z) × (pv z ≡ a)
Chain nx pv a (x ∷ xs) z = (nx a ≡ x) × (pv x ≡ a) × Chain nx pv x xs z

-- Two functions agree on the list.
abbrev pub Agree : (f g : ℕ → ℕ) → List ℕ → Type 0
Agree f g xs = All (λ x. f x ≡ g x) xs

pub Chain-same :
    (nx pv nx' pv' : ℕ → ℕ) (a : ℕ) (xs : List ℕ) (z : ℕ)
    → nx' a ≡ nx a
    → Agree nx' nx xs
    → Agree pv' pv xs
    → pv' z ≡ pv z
    → Chain nx pv a xs z
    → Chain nx' pv' a xs z
Chain-same nx pv nx' pv' a [] z e f g q (l, r) = (e ∙ l, q ∙ r)
Chain-same nx pv nx' pv' a (x ∷ xs) z e f g q (l, r, c) =
    (e ∙ l, g.0 ∙ r, Chain-same nx pv nx' pv' x xs z f.0 f.1 g.1 q c)

pub Agree-put : (f : ℕ → ℕ) (i v : ℕ) (xs : List ℕ) → mem i xs ≡ false → Agree (put f i v) f xs
Agree-put f i v [] h = tt
Agree-put f i v (x ∷ xs) h = (ground (arith, h), Agree-put f i v xs (ground (arith, h)))

pub Agree-trans : (f g k : ℕ → ℕ) (xs : List ℕ) → Agree f g xs → Agree g k xs → Agree f k xs
Agree-trans f g k [] a b = tt
Agree-trans f g k (x ∷ xs) a b = (a.0 ∙ b.0, Agree-trans f g k xs a.1 b.1)

pub mem-append : (a : ℕ) (xs ys : List ℕ) → mem a (xs ++ ys) ≡ (mem a xs || mem a ys)
mem-append a [] ys = refl
mem-append a (x ∷ xs) ys = ground (arith, mem-append a xs ys)

pub Chain-append :
    (nx pv : ℕ → ℕ) (a : ℕ) (xs : List ℕ) (b : ℕ) (ys : List ℕ) (z : ℕ)
    → Chain nx pv a (xs ++ b ∷ ys) z
    → Chain nx pv a xs b × Chain nx pv b ys z
Chain-append nx pv a [] b ys z (l, r, c) = ((l, r), c)
Chain-append nx pv a (x ∷ xs) b ys z (l, r, c) =
    let (p, q) = Chain-append nx pv x xs b ys z c in ((l, r, p), q)

-- the node before the end, and the one behind the start
prev-mem :
    (nx pv : ℕ → ℕ) (a : ℕ) (xs : List ℕ) (z : ℕ) → Chain nx pv a xs z → mem (pv z) (a ∷ xs) ≡ true
prev-mem nx pv a [] z (l, r) = ground (arith, r)
prev-mem nx pv a (x ∷ xs) z (l, r, c) = ground (arith, prev-mem nx pv x xs z c)

next-mem :
    (nx pv : ℕ → ℕ) (a : ℕ) (xs : List ℕ) (z : ℕ)
    → Chain nx pv a xs z
    → (nx a ≡ z) ⊎ (mem (nx a) xs ≡ true)
next-mem nx pv a [] z (l, r) = inl l
next-mem nx pv a (x ∷ xs) z (l, r, c) = inr (ground (arith, l))

-- A node that is in the list is none that is not.
pub mem_ne : (a b : ℕ) (xs : List ℕ) → mem a xs ≡ true → mem b xs ≡ false → a ≢ b
mem_ne a b xs h k e = absurd (ground (arith, h, k, e, ap (λ a. mem a xs) e))

-- Linking a node behind the start of a ring.
module _ (nx pv : ℕ → ℕ) (h b : ℕ) where
  abbrev pub front_next : ℕ → ℕ
  front_next = put (put nx b (nx h)) h b

  abbrev pub front_prev : ℕ → ℕ
  front_prev = put (put pv b h) (put nx b (nx h) h) b

  pub Chain-push_front :
      (ys : List ℕ)
      → b ≢ h
      → mem b ys ≡ false
      → mem h ys ≡ false
      → Distinct ys
      → Chain nx pv h ys h
      → Chain front_next front_prev h (b ∷ ys) h
  Chain-push_front [] n m k d (l, r) =
      (ground arith, ground (arith, n, l), (ground (arith, n, l), ground (arith, n, l)))
  Chain-push_front (y ∷ ys) n m k d (l, r, c) = (
    ground arith,
    ground (arith, n, m, l),
    (
      ground (arith, n, l),
      ground (arith, n, l),
      Chain-same nx pv front_next front_prev y ys h (ground (arith, m, k))
          (Agree-trans front_next (put nx b (nx h)) nx ys
            (Agree-put (put nx b (nx h)) h b ys (ground (arith, k)))
            (Agree-put nx b (nx h) ys (ground (arith, m))))
          (Agree-trans front_prev (put pv b h) pv ys
            (Agree-put (put pv b h) (put nx b (nx h) h) b ys (ground (arith, n, l, d)))
            (Agree-put pv b h ys (ground (arith, m))))
          (ground (arith, n, l, k)) c,
    ),
  )

-- Unlinking the node `b`.
module _ (nx pv : ℕ → ℕ) (b : ℕ) where
  abbrev pub unlinked_next : ℕ → ℕ
  unlinked_next = put nx (pv b) (nx b)

  abbrev pub unlinked_prev : ℕ → ℕ
  unlinked_prev = put pv (nx b) (pv b)

  not_last :
      (a : ℕ) (pre post : List ℕ) → mem a (pre ++ post) ≡ false → mem (pv b) pre ≡ true → pv b ≢ a
  not_last a pre post k m = mem_ne (pv b) a pre m (ground (arith, k, mem-append a pre post))

  not_first :
      (x : ℕ) (pre post : List ℕ) (z : ℕ)
      → mem x (pre ++ post) ≡ false
      → x ≢ z
      → (nx b ≡ z) ⊎ (mem (nx b) post ≡ true)
      → nx b ≢ x
  not_first x pre post z k n (inl e) = λ q. n (sym q ∙ e)
  not_first x pre post z k n (inr m) =
      mem_ne (nx b) x post m (ground (arith, k, mem-append x pre post))

  -- `z` may be the start again, and is no node of the list.
  pub Chain-unlink :
      (a : ℕ) (pre post : List ℕ) (z : ℕ)
      → Distinct (pre ++ post)
      → mem z (pre ++ post) ≡ false
      → mem a (pre ++ post) ≡ false
      → Chain nx pv a pre b
      → Chain nx pv b post z
      → Chain unlinked_next unlinked_prev a (pre ++ post) z
  Chain-unlink a [] [] z d m k (l, r) (l', r') = (ground (arith, r, l'), ground (arith, r, l'))
  Chain-unlink a [] (y ∷ ys) z d m k (l, r) (l', r', c) = (
    ground (arith, r, l'),
    ground (arith, r, l'),
    Chain-same nx pv unlinked_next unlinked_prev y ys z (ground (arith, r, k))
        (Agree-put nx (pv b) (nx b) ys (ground (arith, r, k)))
        (Agree-put pv (nx b) (pv b) ys (ground (arith, l', d))) (ground (arith, l', m)) c,
  )
  Chain-unlink a (x ∷ pre) post z d m k (l, r, c) c' = (
    ground (arith, not_last a (x ∷ pre) post k (prev-mem nx pv x pre b c), l),
    ground (arith, not_first x pre post z d.0 (ground (arith, m)) (next-mem nx pv b post z c'), r),
    Chain-unlink x pre post z d.1 (ground (arith, m)) d.0 c c',
  )
