-- ===== src/Memory/Copy.antt =====
-- The bounded string copies of kernel/string.c, `strncpy` and `safestrcpy`.
use paddle_os.Prelude.{
  ◌==◌, if◌then◌else◌, Bool-cases, ℕ, zero, suc, ◌+◌, ◌-◌, ◌≤◌, ◌<◌, ◌≡◌, refl, ◌≢◌, ◌⊎◌, inl, inr,
  Bool, false, ◌||◌, arith,
}
use paddle_os.Memory.{Mem, store, safestrcpy_loop, safestrcpy, zero_fill, strncpy}
use paddle_os.Memory.Move.{inside}
use paddle_os.Memory.Strings.{NoNul, IsString}

-- a terminator lies among the first `i` bytes from `t` on
unfoldable pub ended : Mem → (t i : ℕ) → Bool
ended m t zero = false
ended m t (suc i) = (m t == 0) || ended m (t + 1) i

-- the length of the string at `t`, cut off at `k`
unfoldable pub length_upto : Mem → (t k : ℕ) → ℕ
length_upto m t zero = 0
length_upto m t (suc k) = if m t == 0 then 0 else suc (length_upto m (t + 1) k)

ended-store :
    (i t : ℕ) (m : Mem) (a v : ℕ) → inside a t i ≡ false → ended (store m a v) t i ≡ ended m t i
unfolding ended store
ended-store zero t m a v h = refl
ended-store (suc i) t m a v h = ground (arith, ended-store i (t + 1) m a v)

length_upto-store :
    (k t : ℕ) (m : Mem) (a v : ℕ)
    → inside a t k ≡ false
    → length_upto (store m a v) t k ≡ length_upto m t k
unfolding length_upto store
length_upto-store zero t m a v h = refl
length_upto-store (suc k) t m a v h = ground (arith, length_upto-store k (t + 1) m a v)

zero_fill_lem : (n s : ℕ) (m : Mem) (a : ℕ) → zero_fill n s m a ≡ (if inside a s n then 0 else m a)
unfolding zero_fill store
zero_fill_lem zero s m a = ground arith
zero_fill_lem (suc n) s m a = ground (arith, zero_fill_lem n (s + 1) (store m s 0) a)

abbrev pub Apart : (s t n : ℕ) → Type 0
Apart s t n = (s + n ≤ t) ⊎ (t + n ≤ s)

ended-unfold :
    (m : Mem) (t i : ℕ)
    → ended m t i ≡ (if i == 0 then false else ((m t == 0) || ended m (t + 1) (i - 1)))
unfolding ended
ended-unfold m t zero = refl
ended-unfold m t (suc i) = ground arith

-- `strncpy` writes exactly `n` bytes: those of the source string, then zeros from its terminator on.
pub strncpy_lem :
    (n s t : ℕ) (m : Mem) (a : ℕ)
    → Apart s t n
    → strncpy s t n m a
      ≡ (if inside a s n then (if ended m t (a - s) then 0 else m (t + (a - s))) else m a)
unfolding strncpy
strncpy_lem zero s t m a h = ground arith
strncpy_lem (suc n) s t m a h =
    let m' : Mem = store m s (m t) in
    unfold store in
    ground (
      arith,
      zero_fill_lem n (s + 1) m' a,
      strncpy_lem n (s + 1) (t + 1) m' a,
      ended-unfold m t (a - s),
      ended-store (a - s - 1) (t + 1) m s (m t),
    )

-- What a bounded copy leaves: a C string at `s` that is the source string cut off at `k`.
pub record Copied (s t k : ℕ) (m m' : Mem) : Type 0 where
  pub string : IsString m' s (length_upto m t k)
  pub same : (i : ℕ) → i < length_upto m t k → m' (s + i) ≡ m (t + i)
  pub within : length_upto m t k ≤ k
  pub frame : (a : ℕ) → inside a s (k + 1) ≡ false → m' a ≡ m a

-- a byte copied in front of a copy
Copied-cons :
    {s t k : ℕ} {m m' : Mem}
    → Apart s t (suc k + 1)
    → m t ≢ 0
    → Copied (s + 1) (t + 1) k (store m s (m t)) m'
    → Copied s t (suc k) m m'
unfolding length_upto store
Copied-cons {s} {t} {k} {m} {m'} h nz ih = record {
  string = (no_nul, ground (arith, e, ih.string.1));
  same = same';
  within = ground (arith, e, ih.within);
  frame = λ a o. ground (arith, ih.frame a);
}
  where
    e : length_upto (store m s (m t)) (t + 1) k ≡ length_upto m (t + 1) k
    e = length_upto-store k (t + 1) m s (m t) (ground arith)

    front : m' s ≡ m t
    front = ground (arith, ih.frame s)

    same' : (i : ℕ) → i < length_upto m t (suc k) → m' (s + i) ≡ m (t + i)
    same' zero l = ground (arith, front)
    same' (suc i) l = ground (arith, e, nz, ih.same i)

    no_nul : NoNul m' s (length_upto m t (suc k))
    no_nul zero l = ground (arith, front)
    no_nul (suc i) l = ground (arith, e, nz, ih.string.0 i)

safestrcpy_loop_lem :
    (k s t : ℕ) (m : Mem) → Apart s t (k + 1) → Copied s t k m (safestrcpy_loop k s t m)
unfolding safestrcpy_loop length_upto store
safestrcpy_loop_lem zero s t m h = record {
  string = (λ j l. absurd (omega arith), ground arith);
  same = λ i l. absurd (omega arith);
  within = omega arith;
  frame = λ a o. ground arith;
}
safestrcpy_loop_lem (suc k) s t m h = elim (Bool-cases (m t == 0)) [
  | inl z ↦ rw z (record {
    string = (λ j l. ground (arith, z), ground (arith, z));
    same = λ i l. ground (arith, z);
    within = ground (arith, z);
    frame = λ a o. ground (arith, z);
  })
  | inr nz ↦ rw nz (
      Copied-cons h (ground (arith, nz))
        (safestrcpy_loop_lem k (s + 1) (t + 1) (store m s (m t)) (ground arith)))
]

-- `safestrcpy` into `n > 0` bytes leaves a C string there, the source cut off at `n - 1`, and
-- changes nothing outside those bytes.
pub safestrcpy_lem :
    (s t n : ℕ) (m : Mem) → 0 < n → Apart s t n → Copied s t (n - 1) m (safestrcpy s t n m)
unfolding safestrcpy
safestrcpy_lem s t zero m h apart = absurd (omega arith)
safestrcpy_lem s t (suc k) m h apart =
    let e : suc k - 1 ≡ k = omega arith in rw e (safestrcpy_loop_lem k s t m (ground arith))
