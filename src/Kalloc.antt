-- ===== src/Kalloc.antt =====
-- kernel/kalloc.c: the allocator of physical pages. The free list runs through the pages
-- themselves: the first eight bytes of a free page hold the address of the next one.
-- `acquire` and `release` of `kmem.lock` bracket the accesses to `kmem.freelist`, and such
-- a section is one step here. `end`, the address behind the kernel that the linker script
-- provides, is a parameter.
pub mod FreeList
pub mod Init
mod Tests
use paddle_os.Prelude.{
  ltb, leb, ◌==◌, if◌then◌else◌, Outcome, ◌>>=◌, ℕ, zero, suc, ◌+◌, ◌-◌, ◌*◌, ◌%◌, ◌^◌, not, ◌||◌,
  ok, panic, out_of_fuel,
}
use paddle_os.Memory.{Mem, memset}
use paddle_os.Memory.Words.{load_word, store_word}

abbrev pub page_size : ℕ
page_size = 4096

-- where the machine's memory starts, and the kernel is loaded
abbrev pub kernel_base : ℕ
kernel_base = 0x80000000

abbrev pub phymemstop : ℕ
phymemstop = kernel_base + 128 * 1024 * 1024

-- `(sz + PGSIZE - 1) & ~(PGSIZE - 1)` in 64 bits
abbrev pub pg_round_up : ℕ → ℕ
pg_round_up a = (let s = (a + 4095) % 2 ^ 64 in s - s % 4096)

-- the memory, and `kmem.freelist` (0 for the null pointer)
pub record Kmem : Type 0 where
  pub mem : Mem
  pub freelist : ℕ

module _ (kernel_end : ℕ) where
  unfoldable pub kfree : ℕ → Kmem → Outcome Kmem
  kfree pa k =
      if not (pa % page_size == 0) || ltb pa kernel_end || leb phymemstop pa
      then panic
      else let junk = memset pa 1 page_size k.mem in
        ok (record { mem = store_word 8 junk pa k.freelist; freelist = pa })

  freerange_loop : (fuel addr_p pa_end : ℕ) → Kmem → Outcome Kmem
  freerange_loop zero addr_p pa_end k = out_of_fuel
  freerange_loop (suc fuel) addr_p pa_end k =
      let round = kfree addr_p k >>= freerange_loop fuel (addr_p + page_size) pa_end in
      if leb (addr_p + page_size) pa_end then round else ok k

  unfoldable pub freerange : (fuel pa_start pa_end : ℕ) → Kmem → Outcome Kmem
  unfolding freerange_loop
  freerange fuel pa_start pa_end k = freerange_loop fuel (pg_round_up pa_start) pa_end k

  -- At the call `kmem.freelist` is null, as static data. 32768 pages make up the 128 MB.
  unfoldable pub kinit : Mem → Outcome Kmem
  unfolding freerange
  kinit m = freerange (32768 + 1) kernel_end phymemstop (record { mem = m; freelist = 0 })

-- The page that is handed out is filled with 3; 0 if there is none.
unfoldable pub kalloc : Kmem → ℕ × Kmem
kalloc k =
    if k.freelist == 0
    then (0, k)
    else let r = k.freelist in
      (r, record { mem = memset r 3 page_size k.mem; freelist = load_word 8 k.mem r })
