-- ===== src/Vm.antt =====
-- kernel/vm.c: Sv39 page tables in physical memory, and the copies between the kernel and a user's
-- address space. The memory and the free pages are Kalloc's `Kmem`. A page table is the address
-- of its page; a PTE is a 64-bit word. The flags that callers pass are below 2 ^ 10, so that `|` joins
-- disjoint bits, which is a sum. A result 0 is `true`, and -1 is `false`.
pub mod Walk
pub mod Space
pub mod Transfer
pub mod Copy
mod Tests
use paddle_os.Prelude.{
  ltb, leb, ◌==◌, if◌then◌else◌, Outcome, ◌>>=◌, ℕ, zero, suc, ◌+◌, ◌-◌, ◌*◌, ◌/◌, ◌%◌, ◌^◌, Bool,
  true, false, not, ◌&&◌, ok, panic, out_of_fuel,
}
use paddle_os.Memory.{Mem, memset, memmove}
use paddle_os.Memory.Words.{load_word, store_word}
use paddle_os.Kalloc.{Kmem, page_size, pg_round_up, kalloc, kfree}

-- `MAXVA`
abbrev pub maxva : ℕ
maxva = 2 ^ 38

abbrev pub pg_round_down : ℕ → ℕ
pg_round_down a = a - a % page_size

-- `pte & PTE_V` and `pte & PTE_U`
abbrev pub is_valid : ℕ → Bool
is_valid pte = pte % 2 == 1

abbrev pub is_user : ℕ → Bool
is_user pte = pte / 16 % 2 == 1

-- `PTE2PA`, `PA2PTE` and `PTE_FLAGS`
abbrev pub pte_to_pa : ℕ → ℕ
pte_to_pa pte = pte / 2 ^ 10 * 2 ^ 12 % 2 ^ 64

abbrev pub pa_to_pte : ℕ → ℕ
pa_to_pte pa = pa / 2 ^ 12 * 2 ^ 10

abbrev pub pte_flags : ℕ → ℕ
pte_flags pte = pte % 2 ^ 10

-- `&pagetable[PX(level, va)]`
abbrev pub pte_address : (pagetable level va : ℕ) → ℕ
pte_address pagetable level va = pagetable + 8 * (va / 2 ^ (12 + 9 * level) % 2 ^ 9)

-- The loop of `walk`; 0 is the null pointer.
unfoldable pub walk_levels : (level pagetable va : ℕ) (alloc : Bool) → Kmem → ℕ × Kmem
walk_levels zero pagetable va alloc k = (pte_address pagetable 0 va, k)
walk_levels (suc level) pagetable va alloc k =
    let a = pte_address pagetable (suc level) va in
    let pte = load_word 8 k.mem a in
    let r = kalloc k in
    let k' = record r.1 {
      mem = store_word 8 (memset r.0 0 page_size r.1.mem) a (pa_to_pte r.0 + 1);
    } in
    let below = walk_levels level (pte_to_pa pte) va alloc k in
    let fresh = walk_levels level r.0 va alloc k' in
    if is_valid pte
    then below
    else if not alloc
    then (0, k)
    else if r.0 == 0
    then (0, r.1)
    else fresh

unfoldable pub walk : (pagetable va : ℕ) (alloc : Bool) → Kmem → Outcome (ℕ × Kmem)
walk pagetable va alloc k = if leb maxva va then panic else ok (walk_levels 2 pagetable va alloc k)

-- what `walkaddr` answers for the PTE at `a`
abbrev pub user_page : (a : ℕ) → Mem → ℕ
user_page a m =
    let pte = load_word 8 m a in
    if a == 0 then 0 else if is_valid pte && is_user pte then pte_to_pa pte else 0

unfoldable pub walkaddr : (pagetable va : ℕ) → Kmem → Outcome ℕ
walkaddr pagetable va k =
    if leb maxva va then ok 0 else (walk pagetable va false k >>= λ r. ok (user_page r.0 r.1.mem))

-- `*pte = v;`
abbrev pub set_pte : (a v : ℕ) → Kmem → Kmem
set_pte a v k = record k { mem = store_word 8 k.mem a v }

-- The loop of `mappages`, from the page `start` to the page `end`.
unfoldable pub map_loop : (fuel pagetable start end pa flags : ℕ) → Kmem → Outcome (Bool × Kmem)
map_loop zero pagetable start end pa flags k = out_of_fuel
map_loop (suc fuel) pagetable start end pa flags k = walk pagetable start true k >>= λ r.
    let pte = load_word 8 r.1.mem r.0 in
    let k' = set_pte r.0 (pa_to_pte pa + (flags / 2 * 2 + 1)) r.1 in
    let rest =
      map_loop fuel pagetable ((start + page_size) % 2 ^ 64) end ((pa + page_size) % 2 ^ 64) flags
        k' in
    if r.0 == 0
    then ok (false, r.1)
    else if is_valid pte
    then panic
    else if start == end
    then ok (true, k')
    else rest

unfoldable pub mappages : (fuel pagetable va size pa flags : ℕ) → Kmem → Outcome (Bool × Kmem)
mappages fuel pagetable va size pa flags k =
    if size == 0
    then panic
    else map_loop fuel pagetable (pg_round_down va) (pg_round_down ((va + size - 1) % 2 ^ 64)) pa
        flags k

unfoldable pub uvmcreate : Kmem → ℕ × Kmem
uvmcreate k =
    let r = kalloc k in
    if r.0 == 0 then (0, r.1) else (r.0, record r.1 { mem = memset r.0 0 page_size r.1.mem })

-- `*pte &= ~PTE_U;`
unfoldable pub uvmclear : (pagetable va : ℕ) → Kmem → Outcome Kmem
uvmclear pagetable va k = walk pagetable va false k >>= λ r.
    let pte = load_word 8 r.1.mem r.0 in
    if r.0 == 0 then panic else ok (set_pte r.0 (if is_user pte then pte - 16 else pte) r.1)

module _ (kernel_end : ℕ) where
  -- the body of the loop of `uvmunmap`, for the PTE at `a`
  unfoldable pub unmap_page : (a : ℕ) (do_free : Bool) → Kmem → Outcome Kmem
  unmap_page a do_free k =
      let pte = load_word 8 k.mem a in
      if a == 0
      then panic
      else if not (is_valid pte)
      then panic
      else if pte_flags pte == 1
      then panic
      else if do_free
      then (kfree kernel_end (pte_to_pa pte) k >>= λ k'. ok (set_pte a 0 k'))
      else ok (set_pte a 0 k)

  unfoldable pub unmap_loop : (npages pagetable a : ℕ) (do_free : Bool) → Kmem → Outcome Kmem
  unmap_loop zero pagetable a do_free k = ok k
  unmap_loop (suc npages) pagetable a do_free k = walk pagetable a false k >>= λ r.
      unmap_page r.0 do_free r.1 >>= unmap_loop npages pagetable (a + page_size) do_free

  unfoldable pub uvmunmap : (pagetable va npages : ℕ) (do_free : Bool) → Kmem → Outcome Kmem
  uvmunmap pagetable va npages do_free k =
      if va % page_size == 0 then unmap_loop npages pagetable va do_free k else panic

  -- The result is the new size.
  unfoldable pub uvmdealloc : (pagetable oldsz newsz : ℕ) → Kmem → Outcome (ℕ × Kmem)
  uvmdealloc pagetable oldsz newsz k =
      if leb oldsz newsz
      then ok (oldsz, k)
      else if ltb (pg_round_up newsz) (pg_round_up oldsz)
      then (uvmunmap pagetable (pg_round_up newsz)
            ((pg_round_up oldsz - pg_round_up newsz) / page_size) true k
          >>= λ k'. ok (newsz, k'))
      else ok (newsz, k)
