-- ===== src/Memory/Move.antt =====
-- What `memset`, `memmove` and `memcmp` of kernel/string.c do to every byte.
use paddle_os.Prelude.{
  ltb, leb, if◌then◌else◌, ℕ, zero, suc, ◌+◌, ◌-◌, ◌%◌, ◌≤◌, ◌<◌, ◌≡◌, ◌⊎◌, Bool, ◌&&◌, arith,
}
use paddle_os.Memory.{Mem, store, memset_from, memset, copy_down, copy_up, memmove}

-- whether `a` lies in the `n` bytes from `p` on
abbrev pub inside : (a p n : ℕ) → Bool
inside a p n = leb p a && ltb a (p + n)

memset_from_lem :
    (n dst c : ℕ) (m : Mem) (a : ℕ)
    → memset_from n dst c m a ≡ (if inside a dst n then c % 256 else m a)
unfolding memset_from store
memset_from_lem zero dst c m a = ground arith
memset_from_lem (suc n) dst c m a =
    ground (arith, memset_from_lem n (dst + 1) c (store m dst (c % 256)) a)

-- Upwards: right when the destination does not start inside the source.
copy_up_lem :
    (n d s : ℕ) (m : Mem) (a : ℕ)
    → (d ≤ s) ⊎ (s + n ≤ d)
    → copy_up n d s m a ≡ (if inside a d n then m (s + (a - d)) else m a)
unfolding copy_up store
copy_up_lem zero d s m a h = ground arith
copy_up_lem (suc n) d s m a h = ground (arith, copy_up_lem n (d + 1) (s + 1) (store m d (m s)) a)

-- Downwards, from the ends: right when the destination starts behind the source.
copy_down_lem :
    (n d s : ℕ) (m : Mem) (a : ℕ)
    → s < d
    → copy_down n (d + n) (s + n) m a ≡ (if inside a d n then m (s + (a - d)) else m a)
unfolding copy_down store
copy_down_lem zero d s m a h = ground arith
copy_down_lem (suc n) d s m a h =
    let e : d + suc n - 1 ≡ d + n = omega arith in
    let e' : s + suc n - 1 ≡ s + n = omega arith in
    rw (e, e') (ground (arith, copy_down_lem n d s (store m (d + n) (m (s + n))) a))

-- `memset` writes the low byte of `c` to each of the `n` bytes and nothing else.
pub memset_lem :
    (dst c n : ℕ) (m : Mem) (a : ℕ) → memset dst c n m a ≡ (if inside a dst n then c % 256 else m a)
unfolding memset
memset_lem dst c n m a = memset_from_lem n dst c m a

-- `memmove` copies as if through a buffer, however the regions overlap: afterwards each of the `n`
-- destination bytes is what its source byte was before the call, and no other byte has changed.
pub memmove_lem :
    (dst src n : ℕ) (m : Mem) (a : ℕ)
    → memmove dst src n m a ≡ (if inside a dst n then m (src + (a - dst)) else m a)
unfolding memmove
memmove_lem dst src n m a = ground (arith, copy_up_lem n dst src m a, copy_down_lem n dst src m a)
