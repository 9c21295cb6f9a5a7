-- ===== src/Proc/Alloc.antt =====
-- `allocproc` of kernel/proc.c.
use paddle_os.Prelude.{
  ◌==◌, Bool-cases, put, ℕ, ◌+◌, ◌%◌, ◌^◌, ◌<◌, ◌≡◌, refl, ◌≢◌, ◌⊎◌, inl, inr, true, false, ◌||◌,
  Option, none, some, arith,
}
use paddle_os.Proc.{
  Table, nproc, used, is_unused, freeproc, find_unused, allocproc, allocproc_found,
}
use paddle_os.Proc.Invariant.{
  IsTable, IsTable-freed, IsTable-taken, Found, first, all_used, find_unused_lem,
}

-- What `allocproc` did: it took the first unused entry and gave it the next pid; or no page was
-- left for it, and it is unused again; or there was no entry.
pub data Allocated (trapframe pagetable : ℕ) (t : Table) : Option ℕ × Table → Type 0 where
  took :
      (k : ℕ) (t' : Table)
      → k < nproc
      → is_unused (t.procs k).state ≡ true
      → ((j : ℕ) → j < k → is_unused (t.procs j).state ≡ false)
      → (t'.procs k).state ≡ used
      → (t'.procs k).pid ≡ t.nextpid
      → ((t'.procs k).trapframe ≡ trapframe) × ((t'.procs k).pagetable ≡ pagetable)
      → ((j : ℕ) → k ≢ j → t'.procs j ≡ t.procs j)
      → Allocated trapframe pagetable t (some k, t')
  no_page :
      (k : ℕ) (t' : Table)
      → (trapframe ≡ 0) ⊎ (pagetable ≡ 0)
      → k < nproc
      → is_unused (t.procs k).state ≡ true
      → ((j : ℕ) → j < k → is_unused (t.procs j).state ≡ false)
      → is_unused (t'.procs k).state ≡ true
      → ((j : ℕ) → k ≢ j → t'.procs j ≡ t.procs j)
      → Allocated trapframe pagetable t (none, t')
  no_entry :
      ((j : ℕ) → j < nproc → is_unused (t.procs j).state ≡ false)
      → Allocated trapframe pagetable t (none, t)

put_self : {A : Type 0} (f : ℕ → A) (i : ℕ) (a : A) → put f i a i ≡ a
put_self f i a = ground arith

put_ne : {A : Type 0} (f : ℕ → A) (i j : ℕ) (a : A) → i ≢ j → put f i a j ≡ f j
put_ne f i j a n = ground (arith, n)

module _ (trapframe pagetable : ℕ) (t : Table) where
  Allocated-found :
      (k : ℕ)
      → k < nproc
      → is_unused (t.procs k).state ≡ true
      → ((j : ℕ) → j < k → is_unused (t.procs j).state ≡ false)
      → Allocated trapframe pagetable t (allocproc_found trapframe pagetable k t)
  unfolding allocproc_found freeproc
  Allocated-found k b u f = elim (Bool-cases (trapframe == 0 || pagetable == 0)) [
    | inl e ↦
        rw e (no_page k _ (ground (arith, e)) b u f (ground arith) (λ j n. put_ne t.procs k j _ n))
    | inr e ↦ rw e (
        took k _ b u f (ground arith) (ground arith) (ground arith, ground arith)
          (λ j n. put_ne t.procs k j _ n))
  ]

  Allocated-of :
      (o : Option ℕ)
      → Found nproc 0 t.procs o
      → find_unused nproc 0 t.procs ≡ o
      → Allocated trapframe pagetable t (allocproc trapframe pagetable t)
  unfolding allocproc
  Allocated-of none (all_used f) e =
      rw (e, allocproc) (no_entry (λ j b. f j (omega arith) (omega (arith, b))))
  Allocated-of (some k) (first k' a b u f) e =
      rw (e, allocproc) (Allocated-found k (omega (arith, b)) u (λ j c. f j (omega arith) c))

  IsTable-found :
      (k : ℕ)
      → IsTable t
      → t.nextpid + 1 < 2 ^ 31
      → IsTable (allocproc_found trapframe pagetable k t).1
  unfolding allocproc_found freeproc
  IsTable-found k h b = elim (Bool-cases (trapframe == 0 || pagetable == 0)) [
    | inl e ↦ rw e (IsTable-freed t k _ ((t.nextpid + 1) % 2 ^ 32) h refl refl (omega (arith, b)))
    | inr e ↦ rw e (IsTable-taken t k _ ((t.nextpid + 1) % 2 ^ 32) h refl refl (omega (arith, b)))
  ]

  IsTable-of :
      (o : Option ℕ)
      → IsTable t
      → t.nextpid + 1 < 2 ^ 31
      → find_unused nproc 0 t.procs ≡ o
      → IsTable (allocproc trapframe pagetable t).1
  unfolding allocproc
  IsTable-of none h b e = rw (e, allocproc) h
  IsTable-of (some k) h b e = rw (e, allocproc) (IsTable-found k h b)

-- `allocproc` takes the first unused entry and gives it the next pid and the two pages, or leaves
-- it unused where a page is missing, or finds no unused entry; it touches no other entry. While
-- the pids do not run out, the live pids stay distinct, positive and below `nextpid`.
pub allocproc_lem :
    (trapframe pagetable : ℕ) (t : Table)
    → IsTable t
    → t.nextpid + 1 < 2 ^ 31
    → Allocated trapframe pagetable t (allocproc trapframe pagetable t)
      × IsTable (allocproc trapframe pagetable t).1
allocproc_lem trapframe pagetable t h b = (
  Allocated-of trapframe pagetable t (find_unused nproc 0 t.procs) (find_unused_lem nproc 0 t.procs)
      refl,
  IsTable-of trapframe pagetable t (find_unused nproc 0 t.procs) h b refl,
)
