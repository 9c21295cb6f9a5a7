-- ===== src/Fork.antt =====
-- kernel/proc.c: `fork` and `growproc`, on the process table, the memory, the open files and the
-- inode table together. The two pages of `allocproc` are arguments, as in Proc, which `kmem` has
-- given out already; where one is missing, the caller has what `allocproc` gives back. Names of
-- processes are not part of an entry.
pub mod Children
pub mod Child
mod Copy
mod Tests
use paddle_os.Prelude.{
  ltb, ◌==◌, if◌then◌else◌, put, Outcome, ◌>>=◌, ℕ, zero, suc, ◌+◌, ◌-◌, ◌%◌, ◌^◌, Bool, true,
  false, Option, none, some, ok,
}
use paddle_os.Memory.{memcpy}
use paddle_os.Memory.Words.{store_word}
use paddle_os.Kalloc.{Kmem, page_size, kfree}
use paddle_os.Vm.{maxva, uvmunmap, uvmdealloc}
use paddle_os.Vm.Space.{uvmalloc, uvmcopy, uvmfree}
use paddle_os.Proc.{Proc, Table, runnable, freeproc, allocproc}
use paddle_os.File.{Files, filedup}
use paddle_os.Inode.{Itable, idup}
use paddle_os.Sysfile.{Ofile, nofile}

-- What `fork` changes; `ofiles` and `cwds` are the fields `ofile` and `cwd` of the processes.
pub record Machine : Type 0 where
  pub table : Table
  pub kmem : Kmem
  pub ofiles : ℕ → Ofile
  pub files : Files
  pub cwds : ℕ → ℕ
  pub itable : Itable

-- the loop of `fork` over the descriptors
unfoldable pub dup_files : (left fd : ℕ) (parent child : Ofile) → Files → Outcome (Ofile × Files)
dup_files zero fd parent child files = ok (child, files)
dup_files (suc left) fd parent child files = elim (parent fd) [
  | none ↦ dup_files left (suc fd) parent child files
  | some f ↦
      filedup f files >>= λ files'. dup_files left (suc fd) parent (put child fd (some f)) files'
]

-- `*(np->trapframe) = *(p->trapframe); np->trapframe->a0 = 0;`
abbrev pub copy_trapframe : (new old : ℕ) → Kmem → Kmem
copy_trapframe new old k = record k { mem = store_word 8 (memcpy new old 288 k.mem) (new + 112) 0 }

-- `TRAMPOLINE` and `TRAPFRAME`
abbrev pub trampoline : ℕ
trampoline = maxva - page_size

abbrev pub trapframe_va : ℕ
trapframe_va = trampoline - page_size

module _ (kernel_end : ℕ) where
  unfoldable pub proc_freepagetable : (pagetable sz : ℕ) → Kmem → Outcome Kmem
  proc_freepagetable pagetable sz k =
      uvmunmap kernel_end pagetable trampoline 1 false k
      >>= uvmunmap kernel_end pagetable trapframe_va 1 false
      >>= uvmfree kernel_end pagetable sz

  -- the pages that `freeproc` gives back
  unfoldable pub free_pages : Proc → Kmem → Outcome Kmem
  free_pages p k =
      let kept = if p.trapframe == 0 then ok k else kfree kernel_end p.trapframe k in
      kept >>= λ k'. if p.pagetable == 0 then ok k' else proc_freepagetable p.pagetable p.sz k'

  -- `fork` once `allocproc` has given the entry `np`
  unfoldable pub fork_into : (me np : ℕ) → Machine → Outcome (Option ℕ × Machine)
  fork_into me np m =
      let p = m.table.procs me in
      let c = m.table.procs np in
      uvmcopy kernel_end (p.sz + 1) p.pagetable c.pagetable p.sz m.kmem >>= λ r.
      let given_up = free_pages c r.1 >>= λ k. ok (
        none,
        record m { kmem = k; table = record m.table { procs = put m.table.procs np (freeproc c) } },
      ) in
      let forked = dup_files nofile 0 (m.ofiles me) (m.ofiles np) m.files >>= λ d.
      let c' = record c { sz = p.sz; parent = some me; state = runnable } in
      ok (
        some c.pid,
        record {
          table = record m.table { procs = put m.table.procs np c' };
          kmem = copy_trapframe c.trapframe p.trapframe r.1;
          ofiles = put m.ofiles np d.0;
          files = d.1;
          cwds = put m.cwds np (m.cwds me);
          itable = idup (m.cwds me) m.itable;
        },
      ) in
      if r.0 then forked else given_up

  -- by the process `me`
  unfoldable pub fork : (trapframe pagetable me : ℕ) → Machine → Outcome (Option ℕ × Machine)
  fork trapframe pagetable me m =
      let a = allocproc trapframe pagetable m.table in
      let m' = record m { table = a.1 } in
      elim a.0 [ none ↦ ok (none, m') | some np ↦ fork_into me np m' ]

  -- `n` is an `int`. With the new `sz`; `true` is 0. The loop takes a round at most for each byte.
  unfoldable pub growproc : (n pagetable sz : ℕ) → Kmem → Outcome (Bool × ℕ × Kmem)
  growproc n pagetable sz k =
      let grown = uvmalloc kernel_end (n + 1) pagetable sz ((sz + n) % 2 ^ 64) 4 k >>= λ r.
      ok (if r.0 == 0 then (false, sz, r.1) else (true, r.0, r.1)) in
      let shrunk =
        uvmdealloc kernel_end pagetable sz ((sz + n + (2 ^ 64 - 2 ^ 32)) % 2 ^ 64) k >>= λ r.
        ok (true, r.0, r.1) in
      if n == 0 then ok (true, sz, k) else if ltb n (2 ^ 31) then grown else shrunk
