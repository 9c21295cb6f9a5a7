-- ===== src/Vm/Transfer.antt =====
-- kernel/vm.c: `copyin`, `copyout` and `copyinstr`. A `true` is 0, and a `false` is -1. Each round
-- copies at least one byte, so that the length is enough fuel.
use paddle_os.Prelude.{
  ◌==◌, if◌then◌else◌, Outcome, ◌>>=◌, ℕ, zero, suc, ◌+◌, ◌-◌, ◌%◌, min, Bool, true, false, ok,
  out_of_fuel,
}
use paddle_os.Memory.{Mem, store, memmove}
use paddle_os.Kalloc.{Kmem, page_size}
use paddle_os.Vm.{walkaddr, pg_round_down}

-- `n = PGSIZE - (va - va0); if (n > len) n = len;`
abbrev pub chunk : (va len : ℕ) → ℕ
chunk va len = min (page_size - va % page_size) len

abbrev pub with_mem : Kmem → Mem → Kmem
with_mem k m = record k { mem = m }

unfoldable pub copyin : (fuel pagetable dst srcva len : ℕ) → Kmem → Outcome (Bool × Kmem)
copyin zero pagetable dst srcva len k = if len == 0 then ok (true, k) else out_of_fuel
copyin (suc fuel) pagetable dst srcva len k =
    let va0 = pg_round_down srcva in
    let n = chunk srcva len in
    let round = walkaddr pagetable va0 k >>= λ pa0.
    let rest =
      copyin fuel pagetable (dst + n) (va0 + page_size) (len - n)
        (with_mem k (memmove dst (pa0 + (srcva - va0)) n k.mem)) in
    if pa0 == 0 then ok (false, k) else rest in
    if len == 0 then ok (true, k) else round

unfoldable pub copyout : (fuel pagetable dstva src len : ℕ) → Kmem → Outcome (Bool × Kmem)
copyout zero pagetable dstva src len k = if len == 0 then ok (true, k) else out_of_fuel
copyout (suc fuel) pagetable dstva src len k =
    let va0 = pg_round_down dstva in
    let n = chunk dstva len in
    let round = walkaddr pagetable va0 k >>= λ pa0.
    let rest =
      copyout fuel pagetable (va0 + page_size) (src + n) (len - n)
        (with_mem k (memmove (pa0 + (dstva - va0)) src n k.mem)) in
    if pa0 == 0 then ok (false, k) else rest in
    if len == 0 then ok (true, k) else round

-- the inner loop of `copyinstr`: `got_null`, how many bytes came before, and the memory
unfoldable pub copy_string : (n p dst : ℕ) → Mem → Bool × ℕ × Mem
copy_string zero p dst m = (false, 0, m)
copy_string (suc n) p dst m =
    let r = copy_string n (p + 1) (dst + 1) (store m dst (m p)) in
    if m p == 0 then (true, 0, store m dst 0) else (r.0, suc r.1, r.2)

unfoldable pub copyinstr : (fuel pagetable dst srcva max : ℕ) → Kmem → Outcome (Bool × Kmem)
copyinstr zero pagetable dst srcva max k = if max == 0 then ok (false, k) else out_of_fuel
copyinstr (suc fuel) pagetable dst srcva max k =
    let va0 = pg_round_down srcva in
    let round = walkaddr pagetable va0 k >>= λ pa0.
    let r = copy_string (chunk srcva max) (pa0 + (srcva - va0)) dst k.mem in
    let rest =
      copyinstr fuel pagetable (dst + r.1) (va0 + page_size) (max - r.1) (with_mem k r.2) in
    if pa0 == 0 then ok (false, k) else if r.0 then ok (true, with_mem k r.2) else rest in
    if max == 0 then ok (false, k) else round
