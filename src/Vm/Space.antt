-- ===== src/Vm/Space.antt =====
-- kernel/vm.c: a user's address space, grown, copied for a child process, and freed.
use paddle_os.Prelude.{
  ltb, leb, ◌==◌, if◌then◌else◌, Outcome, ◌>>=◌, ℕ, zero, suc, ◌+◌, ◌*◌, ◌/◌, ◌%◌, Bool, true,
  false, not, ◌&&◌, ok, panic, out_of_fuel,
}
use paddle_os.Memory.{memset, memmove}
use paddle_os.Memory.Words.{load_word}
use paddle_os.Kalloc.{Kmem, page_size, pg_round_up, kalloc, kfree}
use paddle_os.Vm.{is_valid, pte_to_pa, pte_flags, walk, set_pte, mappages, uvmunmap, uvmdealloc}

-- The code is placed at the address 0; the page is not tested for null.
unfoldable pub uvmfirst : (pagetable src sz : ℕ) → Kmem → Outcome Kmem
uvmfirst pagetable src sz k =
    if leb page_size sz
    then panic
    else let r = kalloc k in
      (mappages 1 pagetable 0 page_size r.0 (2 + 4 + 8 + 16)
          (record r.1 { mem = memset r.0 0 page_size r.1.mem })
        >>= λ s. ok (record s.1 { mem = memmove r.0 src sz s.1.mem }))

module _ (kernel_end : ℕ) where
  -- the error exit of `uvmalloc`
  abbrev pub alloc_error : (pagetable address oldsz : ℕ) → Kmem → Outcome (ℕ × Kmem)
  alloc_error pagetable address oldsz k =
      uvmdealloc kernel_end pagetable address oldsz k >>= λ r. ok (0, r.1)

  -- The loop of `uvmalloc`. `xperm` has none of the bits of `PTE_R` and `PTE_U`.
  unfoldable pub alloc_loop :
      (fuel pagetable address oldsz newsz xperm : ℕ) → Kmem → Outcome (ℕ × Kmem)
  alloc_loop zero pagetable address oldsz newsz xperm k = out_of_fuel
  alloc_loop (suc fuel) pagetable address oldsz newsz xperm k =
      let r = kalloc k in
      let zeroed = record r.1 { mem = memset r.0 0 page_size r.1.mem } in
      let page = mappages 1 pagetable address page_size r.0 (2 + 16 + xperm) zeroed >>= λ s.
      let rest = alloc_loop fuel pagetable (address + page_size) oldsz newsz xperm s.1 in
      if s.0 then rest else (kfree kernel_end r.0 s.1 >>= alloc_error pagetable address oldsz) in
      if not (ltb address newsz)
      then ok (newsz, k)
      else if r.0 == 0
      then alloc_error pagetable address oldsz r.1
      else page

  unfoldable pub uvmalloc : (fuel pagetable oldsz newsz xperm : ℕ) → Kmem → Outcome (ℕ × Kmem)
  uvmalloc fuel pagetable oldsz newsz xperm k =
      if ltb newsz oldsz
      then ok (oldsz, k)
      else alloc_loop fuel pagetable (pg_round_up oldsz) (pg_round_up oldsz) newsz xperm k

  -- the error exit of `uvmcopy`
  abbrev pub copy_error : (new i : ℕ) → Kmem → Outcome (Bool × Kmem)
  copy_error new i k = uvmunmap kernel_end new 0 (i / page_size) true k >>= λ k'. ok (false, k')

  -- The loop of `uvmcopy`.
  unfoldable pub copy_loop : (fuel old new i sz : ℕ) → Kmem → Outcome (Bool × Kmem)
  copy_loop zero old new i sz k = out_of_fuel
  copy_loop (suc fuel) old new i sz k =
      let page = walk old i false k >>= λ r.
      let pte = load_word 8 r.1.mem r.0 in
      let s = kalloc r.1 in
      let copied = record s.1 { mem = memmove s.0 (pte_to_pa pte) page_size s.1.mem } in
      let mapped = mappages 1 new i page_size s.0 (pte_flags pte) copied >>= λ t.
      let rest = copy_loop fuel old new (i + page_size) sz t.1 in
      if t.0 then rest else (kfree kernel_end s.0 t.1 >>= copy_error new i) in
      if r.0 == 0
      then panic
      else if not (is_valid pte)
      then panic
      else if s.0 == 0
      then copy_error new i s.1
      else mapped in
      if ltb i sz then page else ok (true, k)

  unfoldable pub uvmcopy : (fuel old new sz : ℕ) → Kmem → Outcome (Bool × Kmem)
  uvmcopy fuel old new sz k = copy_loop fuel old new 0 sz k

  -- The loop of `freewalk`, from the entry `i` on, with `child` for the recursive call.
  unfoldable pub free_ptes :
      (child : ℕ → Kmem → Outcome Kmem) (left i pagetable : ℕ) → Kmem → Outcome Kmem
  free_ptes child zero i pagetable k = ok k
  free_ptes child (suc left) i pagetable k =
      let pte = load_word 8 k.mem (pagetable + 8 * i) in
      let below = child (pte_to_pa pte) k >>= λ k'.
      free_ptes child left (suc i) pagetable (set_pte (pagetable + 8 * i) 0 k') in
      let next = free_ptes child left (suc i) pagetable k in
      if is_valid pte && (pte / 2 % 8 == 0) then below else if is_valid pte then panic else next

  -- The fuel is the depth of the tables, 3.
  unfoldable pub freewalk : (fuel pagetable : ℕ) → Kmem → Outcome Kmem
  freewalk zero pagetable k = out_of_fuel
  freewalk (suc fuel) pagetable k =
      free_ptes (freewalk fuel) 512 0 pagetable k >>= kfree kernel_end pagetable

  unfoldable pub uvmfree : (pagetable sz : ℕ) → Kmem → Outcome Kmem
  uvmfree pagetable sz k =
      let unmapped = uvmunmap kernel_end pagetable 0 (pg_round_up sz / page_size) true k in
      (if ltb 0 sz then unmapped else ok k) >>= freewalk 3 pagetable
