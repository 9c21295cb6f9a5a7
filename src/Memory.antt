-- ===== src/Memory.antt =====
-- kernel/string.c: the byte operations of the kernel, over a flat memory.
-- An address is a number, and a byte a number below 256. Pointer arithmetic does not wrap, since a
-- C object never crosses the end of the address space. A count passed as `int` is taken at the
-- values from 0 up; at a negative one each of these functions does what it does at 0.
pub mod Move
pub mod Strings
pub mod Words
pub mod Copy
mod Tests
use paddle_os.Prelude.{
  ltb, ◌==◌, if◌then◌else◌, ℤ, sub_ℕ, ℕ, zero, suc, ◌+◌, ◌-◌, ◌%◌, not, ◌&&◌, Option, none, some,
  pos,
}

abbrev pub Mem : Type 0
Mem = ℕ → ℕ

-- `*a = v`, through a pointer to `char`
unfoldable pub store : Mem → ℕ → ℕ → Mem
store m a v b = if a == b then v else m b

memset_from : ℕ → ℕ → ℕ → Mem → Mem
memset_from zero dst c m = m
memset_from (suc n) dst c m = memset_from n (dst + 1) c (store m dst (c % 256))

unfoldable pub memset : (dst c n : ℕ) → Mem → Mem
unfolding memset_from store
memset dst c n m = memset_from n dst c m

-- `while (n-- > 0) *--d = *--s;`
copy_down : (n d s : ℕ) → Mem → Mem
copy_down zero d s m = m
copy_down (suc n) d s m = copy_down n (d - 1) (s - 1) (store m (d - 1) (m (s - 1)))

-- `while (n-- > 0) *d++ = *s++;`
copy_up : (n d s : ℕ) → Mem → Mem
copy_up zero d s m = m
copy_up (suc n) d s m = copy_up n (d + 1) (s + 1) (store m d (m s))

unfoldable pub memmove : (dst src n : ℕ) → Mem → Mem
unfolding copy_down copy_up store
memmove dst src n m =
    if n == 0
    then m
    else if ltb src dst && ltb dst (src + n)
    then copy_down n (dst + n) (src + n) m
    else copy_up n dst src m

-- `while (--n > 0 && (*s++ = *t++) != 0); *s = 0;`, where `k` is `n` after the decrement.
safestrcpy_loop : (k s t : ℕ) → Mem → Mem
safestrcpy_loop zero s t m = store m s 0
safestrcpy_loop (suc k) s t m =
    let m' = store m s (m t) in
    let rest = safestrcpy_loop k (s + 1) (t + 1) m' in if m t == 0 then store m' (s + 1) 0 else rest

unfoldable pub safestrcpy : (s t n : ℕ) → Mem → Mem
unfolding safestrcpy_loop store
safestrcpy s t zero m = m
safestrcpy s t (suc k) m = safestrcpy_loop k s t m

unfoldable pub strncmp : (p q n : ℕ) → Mem → ℤ
strncmp p q zero m = pos 0
strncmp p q (suc n) m =
    let rest = strncmp (p + 1) (q + 1) n m in
    if not (m p == 0) && (m p == m q) then rest else sub_ℕ (m p) (m q)

-- the second loop of `strncpy`: `while (n-- > 0) *s++ = 0;`
zero_fill : (n s : ℕ) → Mem → Mem
zero_fill zero s m = m
zero_fill (suc n) s m = zero_fill n (s + 1) (store m s 0)

unfoldable pub strncpy : (s t n : ℕ) → Mem → Mem
unfolding zero_fill store
strncpy s t zero m = m
strncpy s t (suc n) m =
    let m' = store m s (m t) in
    let rest = strncpy (s + 1) (t + 1) n m' in if m t == 0 then zero_fill n (s + 1) m' else rest

unfoldable pub memcmp : (v w n : ℕ) → Mem → ℤ
memcmp v w zero m = pos 0
memcmp v w (suc n) m =
    let rest = memcmp (v + 1) (w + 1) n m in if m v == m w then rest else sub_ℕ (m v) (m w)

strlen_from : (fuel s n : ℕ) → Mem → Option ℕ
strlen_from zero s n m = none
strlen_from (suc fuel) s n m =
    let rest = strlen_from fuel s (n + 1) m in if m (s + n) == 0 then some n else rest

-- `none`: no terminator among the first `fuel` bytes
unfoldable pub strlen : (fuel s : ℕ) → Mem → Option ℕ
unfolding strlen_from
strlen fuel s m = strlen_from fuel s 0 m

unfoldable pub memcpy : (dst src n : ℕ) → Mem → Mem
unfolding memmove
memcpy dst src n m = memmove dst src n m
