-- ===== src/File/Refs.antt =====
-- The reference counts of kernel/file.c against the references that are held.
use paddle_os.Prelude.{
  ◌==◌, if◌then◌else◌, Bool-cases, put, ℕ, zero, suc, ◌+◌, ◌-◌, ◌≤◌, ◌<◌, ◌≡◌, refl, inl, inr,
  false, Option, none, some, arith, ok,
}
use paddle_os.File.{
  nfile, Files, fd_none, find_free, filealloc, filedup, fileclose, nothing, closing,
}

-- `held i` references to file `i` are held by descriptors and by the kernel.
pub record HasRefs (fs : Files) (held : ℕ → ℕ) : Type 0 where
  pub counted : (i : ℕ) → (fs i).ref ≡ held i

abbrev pub one_more : (ℕ → ℕ) → ℕ → ℕ → ℕ
one_more held i = put held i (held i + 1)

abbrev pub one_less : (ℕ → ℕ) → ℕ → ℕ → ℕ
one_less held i = put held i (held i - 1)

-- how `filealloc` finds its entry
pub data FindsFree (left i : ℕ) (fs : Files) : Option ℕ → Type 0 where
  free : (k : ℕ) → k < i + left → (fs k).ref ≡ 0 → FindsFree left i fs (some k)
  all_taken : ((j : ℕ) → i ≤ j → j < i + left → 0 < (fs j).ref) → FindsFree left i fs none

taken_above :
    (fs : Files) (i j n : ℕ)
    → ((fs i).ref == 0) ≡ false
    → (suc i ≤ j → j < n → 0 < (fs j).ref)
    → i ≤ j
    → j < n
    → 0 < (fs j).ref
taken_above fs i j n e f a b = elim (Bool-cases (i == j)) [
  | inl q ↦ ground (arith, q, e)
  | inr q ↦ f (ground (arith, q, a)) b
]

FindsFree-later :
    (left i : ℕ) (fs : Files) (r : Option ℕ)
    → ((fs i).ref == 0) ≡ false
    → FindsFree left (suc i) fs r
    → FindsFree (suc left) i fs r
FindsFree-later left i fs r e (free k b z) = free k (omega (arith, b)) z
FindsFree-later left i fs r e (all_taken f) =
    all_taken (λ j a b. taken_above fs i j (i + suc left) e (λ x y. f j x (omega (arith, y))) a b)

find_free_lem : (left i : ℕ) (fs : Files) → FindsFree left i fs (find_free left i fs)
unfolding find_free
find_free_lem zero i fs = all_taken (λ j a b. absurd (omega (arith, a, b)))
find_free_lem (suc left) i fs = elim (Bool-cases ((fs i).ref == 0)) [
  | inl e ↦ rw e (free i (omega arith) (ground (arith, e)))
  | inr e ↦
      rw e (FindsFree-later left i fs (find_free left (suc i) fs) e (find_free_lem left (suc i) fs))
]

-- What `filealloc` does: it gives out a file that nobody holds, with one reference, or every file
-- of the table is held.
pub data FileGiven (fs : Files) (held : ℕ → ℕ) : Option ℕ × Files → Type 0 where
  given :
      (k : ℕ) (fs' : Files)
      → k < nfile
      → held k ≡ 0
      → HasRefs fs' (one_more held k)
      → FileGiven fs held (some k, fs')
  none_left : ((j : ℕ) → j < nfile → 0 < held j) → FileGiven fs held (none, fs)

FileGiven-of :
    (fs : Files) (held : ℕ → ℕ) (o : Option ℕ)
    → HasRefs fs held
    → FindsFree nfile 0 fs o
    → find_free nfile 0 fs ≡ o
    → FileGiven fs held (filealloc fs)
unfolding filealloc
FileGiven-of fs held none h (all_taken f) e =
    rw (e, filealloc)
      (none_left (λ j b. omega (arith, h.counted j, f j (omega arith) (omega (arith, b)))))
FileGiven-of fs held (some k) h (free k' b z) e =
    rw (e, filealloc)
      (given k _ (omega (arith, b)) (omega (arith, z, h.counted k))
        (record { counted = λ i. ground (arith, z, h.counted i, h.counted k) }))

-- While the counts are those of the references held, `filealloc` gives out a file of the table that
-- nobody holds and counts one reference to it, or every file of the table is held.
pub filealloc_lem : (fs : Files) (held : ℕ → ℕ) → HasRefs fs held → FileGiven fs held (filealloc fs)
filealloc_lem fs held h =
    FileGiven-of fs held (find_free nfile 0 fs) h (find_free_lem nfile 0 fs) refl

dup :
    (fs : Files) (held : ℕ → ℕ) (i : ℕ)
    → HasRefs fs held
    → 0 < held i
    → (fs' : Files) × (filedup i fs ≡ ok fs') × HasRefs fs' (one_more held i)
unfolding filedup
dup fs held i h b = (
  put fs i (record (fs i) { ref = (fs i).ref + 1 }),
  ground (arith, b, h.counted i),
  record { counted = λ j. ground (arith, h.counted i, h.counted j) },
)

close :
    (fs : Files) (held : ℕ → ℕ) (i : ℕ)
    → HasRefs fs held
    → 0 < held i
    → (fs' : Files) × (fileclose i fs ≡ ok ((if held i == 1 then closing (fs i) else nothing), fs'))
      × HasRefs fs' (one_less held i)
unfolding fileclose
close fs held i h b = elim (Bool-cases (held i == 1)) [
  | inl e ↦ (
    put fs i (record (fs i) { ref = 0; kind = fd_none }),
    ground (arith, e, b, h.counted i),
    record { counted = λ j. ground (arith, e, h.counted i, h.counted j) },
  )
  | inr e ↦ (
    put fs i (record (fs i) { ref = (fs i).ref - 1 }),
    ground (arith, e, b, h.counted i),
    record { counted = λ j. ground (arith, e, h.counted i, h.counted j) },
  )
]

-- `filedup` of a file that is held does not panic, and counts the new reference; `fileclose` gives a
-- reference back, and closes what is behind the file exactly when it was the last, which frees the
-- entry.
pub filedup-fileclose :
    (fs : Files) (held : ℕ → ℕ) (i : ℕ)
    → HasRefs fs held
    → 0 < held i
    → ((fs' : Files) × (filedup i fs ≡ ok fs') × HasRefs fs' (one_more held i))
      × ((fs' : Files) × (fileclose i fs
            ≡ ok ((if held i == 1 then closing (fs i) else nothing), fs'))
          × HasRefs fs' (one_less held i))
filedup-fileclose fs held i h b = (dup fs held i h b, close fs held i h b)
