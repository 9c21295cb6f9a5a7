-- ===== src/Memory/Strings.antt =====
-- What the string functions of kernel/string.c do: comparison, length and bounded copies.
use paddle_os.Prelude.{
  ◌==◌, Bool-cases, sub_ℕ-zero_iff, ℕ, zero, suc, ◌+◌, ◌-◌, ◌<◌, ◌≡◌, refl, ◌≢◌, ◌↔◌, inl, inr,
  some, arith, pos,
}
use paddle_os.Memory.{Mem, memcmp, strncmp, strlen_from, strlen}

memcmp-eq : (n v w : ℕ) (m : Mem) (i : ℕ) → memcmp v w n m ≡ pos 0 → i < n → m (v + i) ≡ m (w + i)
unfolding memcmp
memcmp-eq zero v w m i h lt = absurd (omega arith)
memcmp-eq (suc n) v w m i h lt =
    ground (arith, memcmp-eq n (v + 1) (w + 1) m (i - 1), sub_ℕ-zero_iff (m v) (m w))

memcmp-zero :
    (n v w : ℕ) (m : Mem) → ((i : ℕ) → i < n → m (v + i) ≡ m (w + i)) → memcmp v w n m ≡ pos 0
unfolding memcmp
memcmp-zero zero v w m h = refl
memcmp-zero (suc n) v w m h = ground (
  arith,
  h 0,
  memcmp-zero n (v + 1) (w + 1) m (λ i lt. ground (arith, h (i + 1))),
  sub_ℕ-zero_iff (m v) (m w),
)

-- `memcmp` returns 0 exactly when the two runs of `n` bytes are the same.
pub memcmp-zero_iff :
    (v w n : ℕ) (m : Mem) → (memcmp v w n m ≡ pos 0) ↔ ((i : ℕ) → i < n → m (v + i) ≡ m (w + i))
memcmp-zero_iff v w n m = ((λ h i lt. memcmp-eq n v w m i h lt), memcmp-zero n v w m)

-- no terminator among the first `n` bytes from `p` on
abbrev pub NoNul : Mem → ℕ → ℕ → Type 0
NoNul m p n = (j : ℕ) → j < n → m (p + j) ≢ 0

strncmp-eq :
    (n p q : ℕ) (m : Mem) (i : ℕ)
    → strncmp p q n m ≡ pos 0
    → i < n
    → NoNul m p i
    → m (p + i) ≡ m (q + i)
unfolding strncmp
strncmp-eq zero p q m i h lt pre = absurd (omega arith)
strncmp-eq (suc n) p q m zero h lt pre = ground (arith, sub_ℕ-zero_iff (m p) (m q))
strncmp-eq (suc n) p q m (suc i) h lt pre =
    let pre' : NoNul m (p + 1) i = λ j l. ground (arith, pre (suc j)) in
    ground (arith, pre 0, strncmp-eq n (p + 1) (q + 1) m i, pre', sub_ℕ-zero_iff (m p) (m q))

strncmp-zero :
    (n p q : ℕ) (m : Mem)
    → ((i : ℕ) → i < n → NoNul m p i → m (p + i) ≡ m (q + i))
    → strncmp p q n m ≡ pos 0
unfolding strncmp
strncmp-zero zero p q m h = refl
strncmp-zero (suc n) p q m h =
    let first : m p ≡ m q = ground (arith, h 0 (omega arith) (λ j l. absurd (omega arith))) in
    elim (Bool-cases (m p == 0)) [
      | inl z ↦ ground (arith, first, sub_ℕ-zero_iff (m p) (m q))
      | inr nz ↦
          let rest : strncmp (p + 1) (q + 1) n m ≡ pos 0 =
            strncmp-zero n (p + 1) (q + 1) m (λ i l pre.
              ground (arith, h (i + 1) (omega arith) (λ j lj. ground (arith, nz, pre (j - 1))))) in
          ground (arith, first, rest)
    ]

-- `strncmp` returns 0 exactly when the strings agree up to the terminator of the first, that one
-- included, or for `n` bytes.
pub strncmp-zero_iff :
    (p q n : ℕ) (m : Mem)
    → (strncmp p q n m ≡ pos 0) ↔ ((i : ℕ) → i < n → NoNul m p i → m (p + i) ≡ m (q + i))
strncmp-zero_iff p q n m = ((λ h i lt pre. strncmp-eq n p q m i h lt pre), strncmp-zero n p q m)

-- the bytes from `s` on are a C string of length `k`
abbrev pub IsString : Mem → ℕ → ℕ → Type 0
IsString m s k = NoNul m s k × (m (s + k) ≡ 0)

strlen_from_lem :
    (fuel s n k : ℕ) (m : Mem)
    → ((j : ℕ) → j < k → m (s + (n + j)) ≢ 0)
    → m (s + (n + k)) ≡ 0
    → k < fuel
    → strlen_from fuel s n m ≡ some (n + k)
unfolding strlen_from
strlen_from_lem zero s n k m pre z lt = absurd (omega arith)
strlen_from_lem (suc fuel) s n zero m pre z lt = ground (arith)
strlen_from_lem (suc fuel) s n (suc k) m pre z lt =
    let first : m (s + n) ≢ 0 = ground (arith, pre 0) in
    let rest : strlen_from fuel s (n + 1) m ≡ some (n + 1 + k) =
      strlen_from_lem fuel s (n + 1) k m (λ j l. ground (arith, pre (j + 1))) (ground arith)
        (omega arith) in
    ground (arith, first, rest)

-- `strlen` returns the length of a terminated string, when given fuel for its bytes.
pub strlen_lem : (fuel s k : ℕ) (m : Mem) → IsString m s k → k < fuel → strlen fuel s m ≡ some k
unfolding strlen
strlen_lem fuel s k m h lt =
    ground (arith, strlen_from_lem fuel s 0 k m (λ j l. ground (arith, h.0 j)))
