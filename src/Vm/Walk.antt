-- ===== src/Vm/Walk.antt =====
-- `walkaddr` of kernel/vm.c as a function of the page tables.
use paddle_os.Prelude.{
  leb, ◌==◌, if◌then◌else◌, Bool-cases, ℕ, zero, suc, ◌+◌, ◌*◌, ◌/◌, ◌%◌, ◌^◌, ◌≡◌, refl, ap, ◌∙◌,
  inl, inr, Bool, true, false, not, ◌&&◌, ok,
}
use paddle_os.Memory.Words.{load_word}
use paddle_os.Kalloc.{Kmem}
use paddle_os.Vm.{maxva, walk_levels, walk, user_page, walkaddr, is_valid, pte_to_pa, pte_address}

-- the physical address that a PTE holds
abbrev pub frame : ℕ → ℕ
frame pte = pte / 1024 * 4096 % 2 ^ 64

-- The page that Sv39 tables map an address of the user to, or 0: three PTEs, each at nine bits of the
-- address, with bit 0 set in all of them and bit 4 in the last. No PTE is at the address 0.
unfoldable pub translate : (pagetable va : ℕ) → Kmem → ℕ
translate pagetable va k =
    let p2 = load_word 8 k.mem (pagetable + 8 * (va / 2 ^ 30 % 512)) in
    let p1 = load_word 8 k.mem (frame p2 + 8 * (va / 2 ^ 21 % 512)) in
    let a0 = frame p1 + 8 * (va / 2 ^ 12 % 512) in
    let p0 = load_word 8 k.mem a0 in
    if leb (2 ^ 38) va
    then 0
    else if not (p2 % 2 == 1 && p1 % 2 == 1)
    then 0
    else if a0 == 0
    then 0
    else if p0 % 2 == 1 && p0 / 16 % 2 == 1
    then frame p0
    else 0

if_keeps : {k : Kmem} (b : Bool) (r : ℕ × Kmem) → r.1 ≡ k → (if b then r else (0, k)).1 ≡ k
if_keeps true r h = h
if_keeps false r h = refl

walk_levels-keeps :
    (level pagetable va : ℕ) (k : Kmem) → (walk_levels level pagetable va false k).1 ≡ k
unfolding walk_levels
walk_levels-keeps zero pagetable va k = refl
walk_levels-keeps (suc level) pagetable va k =
    if_keeps (is_valid pte) (walk_levels level (pte_to_pa pte) va false k)
      (walk_levels-keeps level (pte_to_pa pte) va k)
  where
    pte : ℕ
    pte = load_word 8 k.mem (pte_address pagetable (suc level) va)

walk_levels-translate :
    (pagetable va : ℕ) (k : Kmem)
    → leb (2 ^ 38) va ≡ false
    → user_page (walk_levels 2 pagetable va false k).0 k.mem ≡ translate pagetable va k
unfolding translate walk_levels
walk_levels-translate pagetable va k small =
    let p2 = load_word 8 k.mem (pagetable + 8 * (va / 2 ^ 30 % 512)) in
    let p1 = load_word 8 k.mem (frame p2 + 8 * (va / 2 ^ 21 % 512)) in
    elim (Bool-cases (p2 % 2 == 1)) [
      | inl a ↦ elim (Bool-cases (p1 % 2 == 1)) [
        | inl b ↦ rw (small, a, b) refl
        | inr b ↦ rw (small, a, b) refl
      ]
      | inr a ↦ rw (small, a) refl
    ]

translate-large :
    (pagetable va : ℕ) (k : Kmem) → leb (2 ^ 38) va ≡ true → translate pagetable va k ≡ 0
unfolding translate
translate-large pagetable va k e = rw e

pub walkaddr-translate :
    (pagetable va : ℕ) (k : Kmem) → walkaddr pagetable va k ≡ ok (translate pagetable va k)
unfolding walkaddr walk
walkaddr-translate pagetable va k = elim (Bool-cases (leb maxva va)) [
  | inl e ↦ rw (e, translate-large pagetable va k e) refl
  | inr e ↦ rw e (
      ap (λ q. ok (user_page (walk_levels 2 pagetable va false k).0 q.mem))
        (walk_levels-keeps 2 pagetable va k)
      ∙ ap ok (walk_levels-translate pagetable va k e))
]
