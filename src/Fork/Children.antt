-- ===== src/Fork/Children.antt =====
-- The descriptors of the child in `fork` of kernel/proc.c.
use paddle_os.Prelude.{
  ◌==◌, Option-cases, put, if-true, if-false, step_below, Outcome, ℕ, zero, suc, ◌+◌, ◌≤◌, ◌<◌, ◌≡◌,
  refl, sym, ap, ◌∙◌, inl, inr, none, some, arith, ok,
}
use paddle_os.File.{Files}
use paddle_os.File.Refs.{HasRefs, one_more, filedup-fileclose}
use paddle_os.Sysfile.{Ofile, nofile}
use paddle_os.Sysfile.Descriptors.{unit, count, held, held_pos, step_more}
use paddle_os.Fork.{dup_files}

-- the child has the parent's descriptors below `fd`, and none above
record Begun (fd : ℕ) (parent child : Ofile) : Type 0 where
  below : (j : ℕ) → j < fd → child j ≡ parent j
  above : (j : ℕ) → fd ≤ j → child j ≡ none

-- what a loop over the descriptors up to the last answers
abbrev Copied : (parent : Ofile) (others : ℕ → ℕ) → Outcome (Ofile × Files) → Type 0
Copied parent others r =
    (child : Ofile) × (files : Files) × (r ≡ ok (child, files))
    × ((j : ℕ) → j < nofile → child j ≡ parent j)
    × HasRefs files (λ i. count nofile parent i + held parent others i)

Begun-none :
    (fd : ℕ) (parent child : Ofile)
    → Begun fd parent child
    → parent fd ≡ none
    → Begun (suc fd) parent child
Begun-none fd parent child b e = record {
  below = λ j l.
      step_below (λ j. child j ≡ parent j) j fd (b.below j) (b.above fd (omega arith) ∙ sym e) l;
  above = λ j l. b.above j (omega (arith, l));
}

Begun-some :
    (fd f : ℕ) (parent child : Ofile)
    → Begun fd parent child
    → parent fd ≡ some f
    → Begun (suc fd) parent (put child fd (some f))
Begun-some fd f parent child b e = record {
  below = λ j l.
      step_below (λ j. put child fd (some f) j ≡ parent j) j fd
        (λ k. if-false (fd == j) _ _ (ground (arith, k)) ∙ b.below j k)
        (if-true (fd == fd) _ _ (ground arith) ∙ sym e) l;
  above = λ j l. if-false (fd == j) _ _ (ground (arith, l)) ∙ b.above j (omega (arith, l));
}

more_count :
    (fd f i : ℕ) (parent : Ofile) (others : ℕ → ℕ)
    → parent fd ≡ some f
    → count (suc fd) parent i + held parent others i
      ≡ one_more (λ i. count fd parent i + held parent others i) f i
unfolding count
more_count fd f i parent others e =
    let one : unit (parent fd) i ≡ unit (some f) i = rw e refl in
    step_more (λ i. count fd parent i + held parent others i) f i _ (omega (arith, one))

count-same :
    (n : ℕ) (a b : Ofile) (i : ℕ) → ((j : ℕ) → j < n → a j ≡ b j) → count n a i ≡ count n b i
unfolding count
count-same zero a b i e = refl
count-same (suc n) a b i e =
    rw (e n (omega arith), count-same n a b i (λ j l. e j (omega (arith, l))))

dup_files-Copied :
    (left fd : ℕ) (parent child : Ofile) (files : Files) (others : ℕ → ℕ)
    → fd + left ≡ nofile
    → Begun fd parent child
    → HasRefs files (λ i. count fd parent i + held parent others i)
    → Copied parent others (dup_files left fd parent child files)
unfolding dup_files count
dup_files-Copied zero fd parent child files others n b h =
    let same : fd ≡ nofile = omega (arith, n) in
    (
      child,
      files,
      refl,
      (λ j l. b.below j (omega (arith, l, same))),
      record {
        counted = λ i. h.counted i ∙ ap (λ k. count k parent i + held parent others i) same;
      },
    )
dup_files-Copied (suc left) fd parent child files others n b h = elim (Option-cases (parent fd)) [
  | inl e ↦
      rw (e, dup_files)
        (dup_files-Copied left (suc fd) parent child files others (omega (arith, n))
          (Begun-none fd parent child b e)
          (record { counted = λ i. h.counted i ∙ rw e (omega arith) }))
  | inr (f, e) ↦
      let some_held = held_pos fd f parent others (omega (arith, n)) e in
      let d =
        (filedup-fileclose files (λ i. count fd parent i + held parent others i) f h
          (omega (arith, some_held))).0 in
      rw (e, dup_files, d.1)
        (dup_files-Copied left (suc fd) parent (put child fd (some f)) d.0 others (omega (arith, n))
          (Begun-some fd f parent child b e)
          (record { counted = λ i. d.2.counted i ∙ sym (more_count fd f i parent others e) }))
]

-- Where the child of `fork` starts without descriptors, and the count of every file is the number of
-- the parent's descriptors of it and the references of `others`, `fork` does not panic: the child has
-- the parent's descriptors, and the counts are those of the two processes and the others.
pub dup_files_lem :
    (parent child : Ofile) (files : Files) (others : ℕ → ℕ)
    → ((j : ℕ) → child j ≡ none)
    → HasRefs files (held parent others)
    → (child' : Ofile) × (files' : Files) × (dup_files nofile 0 parent child files
        ≡ ok (child', files'))
      × ((j : ℕ) → j < nofile → child' j ≡ parent j)
      × HasRefs files' (held child' (held parent others))
dup_files_lem parent child files others e h =
    let (child', files', r, same, c) =
      dup_files-Copied nofile 0 parent child files others (omega arith)
        (record { below = λ j l. absurd (omega (arith, l)); above = λ j l. e j })
        (record { counted = λ i. h.counted i ∙ unfold count in omega arith }) in
    (
      child',
      files',
      r,
      same,
      record {
        counted = λ i.
            c.counted i
            ∙ ap (λ n. n + held parent others i) (sym (count-same nofile child' parent i same));
      },
    )
