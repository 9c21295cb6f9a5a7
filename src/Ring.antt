-- ===== src/Ring.antt =====
-- The circular buffer of kernel/pipe.c, kernel/console.c and kernel/uart.c: an array indexed by counters that grow, each taken modulo
-- the array's size.
use paddle_os.Prelude.{
  length, set, get_or, get_or-set_self, get_or-set_ne, ℕ, zero, suc, ◌+◌, ◌%◌, ◌≤◌, ◌<◌, ◌≡◌, refl,
  sym, ap, ap₂, ◌∙◌, ◌≢◌, List, [], ◌∷◌, ◌++◌, arith,
}

-- the `k` entries from the counter `r` on
unfoldable pub slots : (n : ℕ) (bytes : List ℕ) (r k : ℕ) → List ℕ
slots n bytes r zero = []
slots n bytes r (suc k) = get_or bytes (r % n) 0 ∷ slots n bytes (suc r) k

pub length-slots : (n : ℕ) (bytes : List ℕ) (r k : ℕ) → length (slots n bytes r k) ≡ k
unfolding slots
length-slots n bytes r zero = refl
length-slots n bytes r (suc k) = ap suc (length-slots n bytes (suc r) k)

pub slots-append :
    (n : ℕ) (bytes : List ℕ) (r j k : ℕ)
    → slots n bytes r (j + k) ≡ slots n bytes r j ++ slots n bytes (r + j) k
unfolding slots
slots-append n bytes r zero k =
    ap (slots n bytes r) {x = 0 + k} (omega arith)
    ∙ ap (λ s. slots n bytes s k) {y = r + 0} (omega arith)
slots-append n bytes r (suc j) k =
    ap (slots n bytes r) {y = suc (j + k)} (omega arith)
    ∙ ap (λ l. get_or bytes (r % n) 0 ∷ l)
        (slots-append n bytes (suc r) j k
          ∙ ap (λ s. slots n bytes (suc r) j ++ slots n bytes s k) (omega arith))

-- what the lemmas need of a size `n`, which arithmetic gives at a literal one
pub record IsRing (n : ℕ) : Type 0 where
  pub in_range : (r : ℕ) → r % n < n
  pub distinct : (r k : ℕ) → 0 < k → k < n → (r + k) % n ≢ r % n
  pub next : (r s : ℕ) → r % n ≡ s % n → suc r % n ≡ suc s % n

pub IsRing-512 : IsRing 512
IsRing-512 = record {
  in_range = λ r. omega arith;
  distinct = λ r k p q e. omega (arith, p, q, e);
  next = λ r s e. omega (arith, e);
}

pub IsRing-128 : IsRing 128
IsRing-128 = record {
  in_range = λ r. omega arith;
  distinct = λ r k p q e. omega (arith, p, q, e);
  next = λ r s e. omega (arith, e);
}

pub IsRing-32 : IsRing 32
IsRing-32 = record {
  in_range = λ r. omega arith;
  distinct = λ r k p q e. omega (arith, p, q, e);
  next = λ r s e. omega (arith, e);
}

module _ (n : ℕ) (ring : IsRing n) where
  pub slots-same_place :
      (bytes : List ℕ) (r s k : ℕ) → r % n ≡ s % n → slots n bytes r k ≡ slots n bytes s k
  unfolding slots
  slots-same_place bytes r s zero e = refl
  slots-same_place bytes r s (suc k) e =
      ap₂ (λ i l. get_or bytes i 0 ∷ l) e
        (slots-same_place bytes (suc r) (suc s) k (ring.next r s e))

  -- A write behind the window is not in it.
  pub slots-set_behind :
      (bytes : List ℕ) (r w d k c : ℕ)
      → w ≡ r + d
      → k ≤ d
      → d < n
      → slots n (set bytes (w % n) c) r k ≡ slots n bytes r k
  unfolding slots
  slots-set_behind bytes r w d zero c e h b = refl
  slots-set_behind bytes r w zero (suc k) c e h b = absurd (omega (arith, h))
  slots-set_behind bytes r w (suc d) (suc k) c e h b =
      ap₂ (λ x l. x ∷ l)
        (get_or-set_ne bytes (w % n) (r % n) c 0
          (λ q. ring.distinct r (suc d) (omega arith) b (sym (ap (λ x. x % n) e) ∙ q)))
        (slots-set_behind bytes (suc r) w d k c (omega (arith, e)) (omega (arith, h))
          (omega (arith, b)))

  pub slots-push :
      (bytes : List ℕ) (r w k c : ℕ)
      → w ≡ r + k
      → length bytes ≡ n
      → k < n
      → slots n (set bytes (w % n) c) r (suc k) ≡ slots n bytes r k ++ (c ∷ [])
  unfolding slots
  slots-push bytes r w zero c e l h =
      ap (λ x. x ∷ [])
        (ap (λ x. get_or (set bytes (w % n) c) (x % n) 0) (omega (arith, e))
          ∙ get_or-set_self bytes (w % n) c 0 (omega (arith, l, ring.in_range w)))
  slots-push bytes r w (suc k) c e l h =
      ap₂ (λ x l. x ∷ l)
        (get_or-set_ne bytes (w % n) (r % n) c 0
          (λ q. ring.distinct r (suc k) (omega arith) h (sym (ap (λ x. x % n) e) ∙ q)))
        (slots-push bytes (suc r) w k c (omega (arith, e)) l (omega (arith, h)))
