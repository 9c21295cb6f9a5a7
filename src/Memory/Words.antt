-- ===== src/Memory/Words.antt =====
-- Little-endian words in the flat memory, as the RISC-V stores of `n` bytes write them.
use paddle_os.Prelude.{ℕ, zero, suc, ◌+◌, ◌*◌, ◌/◌, ◌%◌, ◌^◌, ◌<◌, ◌≡◌, refl, false, arith}
use native.Mathlib.Nat.{pow-suc}
use paddle_os.Memory.{Mem, store}
use paddle_os.Memory.Move.{inside}

unfoldable pub store_word : (n : ℕ) → Mem → (a v : ℕ) → Mem
unfolding store
store_word zero m a v = m
store_word (suc n) m a v = store_word n (store m a (v % 256)) (a + 1) (v / 256)

unfoldable pub load_word : (n : ℕ) → Mem → (a : ℕ) → ℕ
load_word zero m a = 0
load_word (suc n) m a = m a + 256 * load_word n m (a + 1)

pub store_word-outside :
    (n : ℕ) (m : Mem) (a v b : ℕ) → inside b a n ≡ false → store_word n m a v b ≡ m b
unfolding store_word
store_word-outside zero m a v b h = refl
store_word-outside (suc n) m a v b h =
    ground (arith, store_word-outside n (store m a (v % 256)) (a + 1) (v / 256) b)

pub load_word-same :
    (n : ℕ) (m m' : Mem) (a : ℕ)
    → ((i : ℕ) → i < n → m' (a + i) ≡ m (a + i))
    → load_word n m' a ≡ load_word n m a
unfolding load_word
load_word-same zero m m' a h = refl
load_word-same (suc n) m m' a h =
    ground (arith, h 0, load_word-same n m m' (a + 1) (λ i l. ground (arith, h (suc i))))

-- A word that fits is read back as it was written.
pub load_word-store_word :
    (n : ℕ) (m : Mem) (a v : ℕ) → v < 256 ^ n → load_word n (store_word n m a v) a ≡ v
unfolding load_word store_word
load_word-store_word zero m a v h = ground arith
load_word-store_word (suc n) m a v h =
    let small : v / 256 < 256 ^ n = omega (arith, pow-suc 256 n) in
    ground (
      arith,
      store_word-outside n (store m a (v % 256)) (a + 1) (v / 256) a,
      load_word-store_word n (store m a (v % 256)) (a + 1) (v / 256) small,
    )
