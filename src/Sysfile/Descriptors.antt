-- ===== src/Sysfile/Descriptors.antt =====
-- The descriptors of a process in kernel/sysfile.c against the reference counts of kernel/file.c.
use paddle_os.Prelude.{
  ltb, ◌==◌, if◌then◌else◌, Bool-cases, Option-cases, put, if-true, Outcome, ◌>>=◌, ℕ, zero, suc,
  ◌+◌, ◌≤◌, ◌<◌, ◌≡◌, refl, sym, ap, ◌∙◌, inl, inr, Bool, true, false, Option, none, some, arith,
  ok,
}
use paddle_os.File.{Files, Closing, nothing, closing, filedup, fileclose}
use paddle_os.File.Refs.{HasRefs, one_more, one_less, filedup-fileclose}
use paddle_os.Sysfile.{Ofile, nofile, argfd, fdalloc_from, fdalloc, sys_dup, sys_close}

abbrev pub is_used : Option ℕ → Bool
is_used none = false
is_used (some f) = true

-- 1 for a descriptor of the file
abbrev pub unit : Option ℕ → (i : ℕ) → ℕ
unit none i = 0
unit (some f) i = if f == i then 1 else 0

-- how many of the first `n` descriptors are of the file
unfoldable pub count : (n : ℕ) → Ofile → (i : ℕ) → ℕ
count zero ofile i = 0
count (suc n) ofile i = unit (ofile n) i + count n ofile i

-- The references to a file that the process has, and `others` beside it.
abbrev pub held : Ofile → (others : ℕ → ℕ) → ℕ → ℕ
held ofile others i = count nofile ofile i + others i

count-put_above :
    (n fd : ℕ) (v : Option ℕ) (ofile : Ofile) (i : ℕ)
    → n ≤ fd
    → count n (put ofile fd v) i ≡ count n ofile i
unfolding count
count-put_above zero fd v ofile i l = refl
count-put_above (suc n) fd v ofile i l =
    let same : put ofile fd v n ≡ ofile n = ground (arith, l) in
    rw (same, count-put_above n fd v ofile i (omega (arith, l)))

count-put :
    (n fd : ℕ) (v : Option ℕ) (ofile : Ofile) (i : ℕ)
    → fd < n
    → count n (put ofile fd v) i + unit (ofile fd) i ≡ count n ofile i + unit v i
unfolding count
count-put zero fd v ofile i l = absurd (omega (arith, l))
count-put (suc n) fd v ofile i l = elim (Bool-cases (fd == n)) [
  | inl e ↦
      let same : fd ≡ n = ground (arith, e) in
      let here : put ofile fd v n ≡ v = ground (arith, e) in
      let there : ofile fd ≡ ofile n = ap ofile same in
      rw (here, there, count-put_above n fd v ofile i (omega (arith, same))) (omega arith)
  | inr e ↦
      let here : put ofile fd v n ≡ ofile n = ground (arith, e) in
      let ih = count-put n fd v ofile i (ground (arith, l, e)) in rw here (omega (arith, ih))
]

-- What `fdalloc` does from the descriptor `fd` on.
data Alloc (left fd f : ℕ) (ofile : Ofile) : Option ℕ × Ofile → Type 0 where
  alloc_at :
      (n : ℕ)
      → n < fd + left
      → ofile n ≡ none
      → ((j : ℕ) → fd ≤ j → j < n → is_used (ofile j) ≡ true)
      → Alloc left fd f ofile (some n, put ofile n (some f))
  all_used :
      ((j : ℕ) → fd ≤ j → j < fd + left → is_used (ofile j) ≡ true)
      → Alloc left fd f ofile (none, ofile)

used_above :
    (ofile : Ofile) (fd j : ℕ)
    → is_used (ofile fd) ≡ true
    → (suc fd ≤ j → is_used (ofile j) ≡ true)
    → fd ≤ j
    → is_used (ofile j) ≡ true
used_above ofile fd j e f a = elim (Bool-cases (fd == j)) [
  | inl q ↦ ap (λ k. is_used (ofile k)) (ground (arith, q)) ∙ e
  | inr q ↦ f (ground (arith, q, a))
]

Alloc-later :
    (left fd f : ℕ) (ofile : Ofile) (r : Option ℕ × Ofile)
    → is_used (ofile fd) ≡ true
    → Alloc left (suc fd) f ofile r
    → Alloc (suc left) fd f ofile r
Alloc-later left fd f ofile r e (alloc_at n l h before) =
    alloc_at n (omega (arith, l)) h (λ j a b. used_above ofile fd j e (λ c. before j c b) a)
Alloc-later left fd f ofile r e (all_used h) =
    all_used (λ j a b. used_above ofile fd j e (λ c. h j c (omega (arith, b))) a)

fdalloc_from-Alloc :
    (left fd f : ℕ) (ofile : Ofile) → Alloc left fd f ofile (fdalloc_from left fd f ofile)
unfolding fdalloc_from
fdalloc_from-Alloc zero fd f ofile = all_used (λ j a b. absurd (omega (arith, a, b)))
fdalloc_from-Alloc (suc left) fd f ofile = elim (Option-cases (ofile fd)) [
  | inl e ↦
      rw (e, fdalloc_from) (alloc_at fd (omega arith) e (λ j a b. absurd (omega (arith, a, b))))
  | inr (i, e) ↦
      rw (e, fdalloc_from)
        (Alloc-later left fd f ofile (fdalloc_from left (suc fd) f ofile) (rw e refl)
          (fdalloc_from-Alloc left (suc fd) f ofile))
]

argfd_used : (fd f : ℕ) (ofile : Ofile) → argfd fd ofile ≡ some f → fd < nofile × ofile fd ≡ some f
unfolding argfd
argfd_used fd f ofile e = elim (Bool-cases (ltb fd nofile)) [
  | inl l ↦ (ground (arith, l), sym (if-true (ltb fd nofile) (ofile fd) none l) ∙ e)
  | inr l ↦ absurd (ground (arith, l, e))
]

-- a descriptor changed, against the count of the references
held-put :
    (fd i : ℕ) (v : Option ℕ) (ofile : Ofile) (others : ℕ → ℕ)
    → fd < nofile
    → held (put ofile fd v) others i + unit (ofile fd) i ≡ held ofile others i + unit v i
held-put fd i v ofile others l = omega (arith, count-put nofile fd v ofile i l)

pub step_more : (h : ℕ → ℕ) (f i x : ℕ) → x ≡ h i + unit (some f) i → x ≡ one_more h f i
step_more h f i x e = elim (Bool-cases (f == i)) [
  | inl q ↦ let same : f ≡ i = ground (arith, q) in ground (arith, q, e, ap h same)
  | inr q ↦ ground (arith, q, e)
]

step_less : (h : ℕ → ℕ) (f i x : ℕ) → x + unit (some f) i ≡ h i → x ≡ one_less h f i
step_less h f i x e = elim (Bool-cases (f == i)) [
  | inl q ↦ let same : f ≡ i = ground (arith, q) in ground (arith, q, e, ap h same)
  | inr q ↦ ground (arith, q, e)
]

held-dup :
    (n f i : ℕ) (ofile : Ofile) (others : ℕ → ℕ)
    → n < nofile
    → ofile n ≡ none
    → held (put ofile n (some f)) others i ≡ one_more (held ofile others) f i
held-dup n f i ofile others l e =
    let all = held-put n i (some f) ofile others l in
    let free : unit (ofile n) i ≡ 0 = rw e refl in
    step_more (held ofile others) f i _ (omega (arith, all, free))

held-close :
    (fd f i : ℕ) (ofile : Ofile) (others : ℕ → ℕ)
    → fd < nofile
    → ofile fd ≡ some f
    → held (put ofile fd none) others i ≡ one_less (held ofile others) f i
held-close fd f i ofile others l e =
    let all = held-put fd i none ofile others l in
    let one : unit (ofile fd) i ≡ unit (some f) i = rw e refl in
    step_less (held ofile others) f i _ (omega (arith, all, one))

pub held_pos :
    (fd f : ℕ) (ofile : Ofile) (others : ℕ → ℕ)
    → fd < nofile
    → ofile fd ≡ some f
    → 0 < held ofile others f
held_pos fd f ofile others l e =
    let all = held-put fd f none ofile others l in
    let one : unit (ofile fd) f ≡ 1 = rw e (ground arith) in omega (arith, all, one)

module _ (fd : ℕ) (ofile : Ofile) (files : Files) (others : ℕ → ℕ) where
  -- How `sys_dup` ends.
  pub data Dup : Outcome (Option ℕ × Ofile × Files) → Type 0 where
    dup_bad : argfd fd ofile ≡ none → Dup (ok (none, ofile, files))
    dup_full : ((j : ℕ) → j < nofile → is_used (ofile j) ≡ true) → Dup (ok (none, ofile, files))
    dup_at :
        (f n : ℕ) (files' : Files)
        → argfd fd ofile ≡ some f
        → n < nofile
        → ofile n ≡ none
        → ((j : ℕ) → j < n → is_used (ofile j) ≡ true)
        → HasRefs files' (held (put ofile n (some f)) others)
        → Dup (ok (some n, put ofile n (some f), files'))

  -- How `sys_close` ends.
  pub data Close : Outcome (Bool × Closing × Ofile × Files) → Type 0 where
    close_bad : argfd fd ofile ≡ none → Close (ok (false, nothing, ofile, files))
    close_at :
        (f : ℕ) (files' : Files)
        → argfd fd ofile ≡ some f
        → HasRefs files' (held (put ofile fd none) others)
        → Close (
            ok (
              true,
              (if held ofile others f == 1 then closing (files f) else nothing),
              put ofile fd none,
              files',
            ))

  with_new :
      (f : ℕ) (r : Option ℕ × Ofile)
      → HasRefs files (held ofile others)
      → argfd fd ofile ≡ some f
      → Alloc nofile 0 f ofile r
      → Dup (elim r.0 [
        | none ↦ ok (none, r.1, files)
        | some n ↦ filedup f files >>= λ files'. ok (some n, r.1, files')
      ])
  with_new f r h e (all_used u) = dup_full (λ j l. u j (omega arith) (omega (arith, l)))
  with_new f r h e (alloc_at n l free before) =
      let a = argfd_used fd f ofile e in
      let (files', d, c) =
        (filedup-fileclose files (held ofile others) f h (held_pos fd f ofile others a.0 a.1)).0 in
      rw d (
        dup_at f n files' e (omega (arith, l)) free (λ j b. before j (omega arith) b)
          (record {
            counted = λ i. c.counted i ∙ sym (held-dup n f i ofile others (omega (arith, l)) free);
          }))

  sys_dup-Dup : HasRefs files (held ofile others) → Dup (sys_dup fd ofile files)
  unfolding sys_dup fdalloc
  sys_dup-Dup h = elim (Option-cases (argfd fd ofile)) [
    | inl e ↦ rw (e, sys_dup) (dup_bad e)
    | inr (f, e) ↦
        rw (e, sys_dup)
          (with_new f (fdalloc_from nofile 0 f ofile) h e (fdalloc_from-Alloc nofile 0 f ofile))
  ]

  with_freed :
      (f : ℕ)
      → HasRefs files (held ofile others)
      → argfd fd ofile ≡ some f
      → Close (fileclose f files >>= λ r. ok (true, r.0, put ofile fd none, r.1))
  with_freed f h e =
      let a = argfd_used fd f ofile e in
      let (files', d, c) =
        (filedup-fileclose files (held ofile others) f h (held_pos fd f ofile others a.0 a.1)).1 in
      rw d (
        close_at f files' e
          (record { counted = λ i. c.counted i ∙ sym (held-close fd f i ofile others a.0 a.1) }))

  sys_close-Close : HasRefs files (held ofile others) → Close (sys_close fd ofile files)
  unfolding sys_close
  sys_close-Close h = elim (Option-cases (argfd fd ofile)) [
    | inl e ↦ rw (e, sys_close) (close_bad e)
    | inr (f, e) ↦ rw (e, sys_close) (with_freed f h e)
  ]

  -- While the count of every file is the number of the process's descriptors of it and the references
  -- of `others`, `sys_dup` and `sys_close` never panic and keep it so. `sys_dup` gives the lowest free
  -- descriptor the file of `fd`, or fails and changes nothing where `fd` is no open descriptor or all
  -- are used; `sys_close` frees `fd`, and closes what is behind the file exactly when that was
  -- the last reference.
  pub sys_dup-sys_close :
      HasRefs files (held ofile others)
      → Dup (sys_dup fd ofile files) × Close (sys_close fd ofile files)
  sys_dup-sys_close h = (sys_dup-Dup h, sys_close-Close h)
