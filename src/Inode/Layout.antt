-- ===== src/Inode/Layout.antt =====
-- Consecutive fields of a block, written and read.
use paddle_os.Prelude.{
  ◌==◌, Bool-cases, ℕ, zero, suc, ◌+◌, ◌-◌, ◌*◌, ◌^◌, ◌≤◌, ◌<◌, ◌≡◌, refl, ap, ◌∙◌, ◌⊎◌, inl, inr,
  List, [], ◌∷◌, arith,
}
use paddle_os.Memory.{Mem}
use paddle_os.Memory.Words.{
  load_word, store_word, store_word-outside, load_word-same, load_word-store_word,
}
use paddle_os.Inode.{store_fields, addr_fields}

-- how many bytes the fields have
unfoldable pub width : List (ℕ × ℕ) → ℕ
width [] = 0
width ((n, v) ∷ fields) = n + width fields

-- Each value fits its field.
abbrev pub Fits : List (ℕ × ℕ) → Type 0
Fits [] = Unit
Fits ((n, v) ∷ fields) = (v < 256 ^ n) × Fits fields

-- The memory holds the fields from the address `a` on.
abbrev pub Holds : List (ℕ × ℕ) → (a : ℕ) → Mem → Type 0
Holds [] a m = Unit
Holds ((n, v) ∷ fields) a m = (load_word n m a ≡ v) × Holds fields (a + n) m

pub store_fields-outside :
    (fields : List (ℕ × ℕ)) (a : ℕ) (m : Mem) (b : ℕ)
    → (b < a) ⊎ (a + width fields ≤ b)
    → store_fields fields a m b ≡ m b
unfolding store_fields width
store_fields-outside [] a m b h = refl
store_fields-outside ((n, v) ∷ fields) a m b h =
    store_fields-outside fields (a + n) (store_word n m a v) b (ground (arith, h))
    ∙ store_word-outside n m a v b (ground (arith, h))

pub Holds-store_fields :
    (fields : List (ℕ × ℕ)) (a : ℕ) (m : Mem)
    → Fits fields
    → Holds fields a (store_fields fields a m)
unfolding store_fields
Holds-store_fields [] a m f = tt
Holds-store_fields ((n, v) ∷ fields) a m f = (
  load_word-same n (store_word n m a v) (store_fields fields (a + n) (store_word n m a v)) a (λ i l.
        store_fields-outside fields (a + n) (store_word n m a v) (a + i) (inl (omega (arith, l))))
      ∙ load_word-store_word n m a v f.0,
  Holds-store_fields fields (a + n) (store_word n m a v) f.1,
)

-- the block numbers of an inode
pub Holds-addr_fields :
    (left i : ℕ) (addrs : ℕ → ℕ) (a j : ℕ) (m : Mem)
    → Holds (addr_fields left i addrs) a m
    → i ≤ j
    → j < i + left
    → load_word 4 m (a + 4 * (j - i)) ≡ addrs j
unfolding addr_fields
Holds-addr_fields zero i addrs a j m h p q = absurd (omega (arith, p, q))
Holds-addr_fields (suc left) i addrs a j m h p q = elim (Bool-cases (i == j)) [
  | inl e ↦ ap (load_word 4 m) (ground (arith, e)) ∙ h.0 ∙ ap addrs (ground (arith, e))
  | inr e ↦
      ap (load_word 4 m) (ground (arith, e, p))
      ∙ Holds-addr_fields left (suc i) addrs (a + 4) j m h.1 (ground (arith, e, p))
          (omega (arith, q))
]
