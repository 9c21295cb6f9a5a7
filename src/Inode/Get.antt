-- ===== src/Inode/Get.antt =====
-- `iget` of kernel/fs.c: one entry of the table per inode.
use paddle_os.Prelude.{
  ltb, ◌==◌, if◌then◌else◌, Bool-cases, put, step_below, Outcome, ℕ, zero, suc, ◌+◌, ◌<◌, ◌≡◌, refl,
  ◌≢◌, inl, inr, Bool, true, false, ◌&&◌, Option, none, some, arith, ok, panic, out_of_fuel,
}
use paddle_os.Inode.{ninode, Itable, note_empty, scan_table, iget, idup}

-- No entry in use below `n` has the inode.
abbrev pub Missing : (n inum : ℕ) → Itable → Type 0
Missing n inum t = (i : ℕ) → i < n → 0 < (t i).ref → (t i).inum ≢ inum

-- Two entries in use have two inodes.
pub record IsTable (t : Itable) : Type 0 where
  pub unique :
      (i j : ℕ)
      → i < ninode
      → j < ninode
      → 0 < (t i).ref
      → 0 < (t j).ref
      → (t i).inum ≡ (t j).inum
      → i ≡ j

abbrev pub taken : (e inum : ℕ) → Itable → Itable
taken e inum t = put t e (record (t e) { inum = inum; ref = 1; valid = false })

-- what `iget` may return
pub data Iget (inum : ℕ) (t : Itable) : Outcome (ℕ × Itable) → Type 0 where
  hit : (i : ℕ) → i < ninode → 0 < (t i).ref → (t i).inum ≡ inum → Iget inum t (ok (i, idup i t))
  fresh :
      (e : ℕ)
      → e < ninode
      → (t e).ref ≡ 0
      → Missing ninode inum t
      → Iget inum t (ok (e, taken e inum t))
  full : ((i : ℕ) → i < ninode → 0 < (t i).ref) → Missing ninode inum t → Iget inum t panic

-- what `empty` says of the entries below `n`
abbrev Empty : (n : ℕ) → Option ℕ → Itable → Type 0
Empty n none t = (i : ℕ) → i < n → 0 < (t i).ref
Empty n (some e) t = (e < n) × ((t e).ref ≡ 0)

Empty-note_empty :
    (n : ℕ) (empty : Option ℕ) (t : Itable)
    → Empty n empty t
    → Empty (suc n) (note_empty empty n (t n).ref) t
Empty-note_empty n none t h = elim (Bool-cases ((t n).ref == 0)) [
  | inl e ↦ rw e (omega arith, ground (arith, e))
  | inr e ↦ rw e (λ i. step_below (λ k. 0 < (t k).ref) i n (h i) (ground (arith, e)))
]
Empty-note_empty n (some e) t h = (omega (arith, h.0), h.1)

Missing-suc :
    (n inum : ℕ) (t : Itable)
    → Missing n inum t
    → (ltb 0 (t n).ref && (t n).inum == inum) ≡ false
    → Missing (suc n) inum t
Missing-suc n inum t m e i =
    step_below (λ k. 0 < (t k).ref → (t k).inum ≢ inum) i n (m i) (λ r q. ground (arith, e, r, q))

-- the test of one entry
scan_entry :
    (n inum : ℕ) (t : Itable) (b : Bool) (rest : Outcome (ℕ × Itable))
    → n < ninode
    → (ltb 0 (t n).ref && (t n).inum == inum) ≡ b
    → (b ≡ false → Iget inum t rest)
    → Iget inum t (if b then ok (n, idup n t) else rest)
scan_entry n inum t true rest l e h = hit n l (ground (arith, e)) (ground (arith, e))
scan_entry n inum t false rest l e h = h refl

scan_table_lem :
    (left n inum : ℕ) (empty : Option ℕ) (t : Itable)
    → left + n ≡ ninode
    → Empty n empty t
    → Missing n inum t
    → Iget inum t (scan_table left n inum empty t)
unfolding scan_table idup
scan_table_lem zero n inum none t e h m =
    full (λ i l. h i (omega (arith, e, l))) (λ i l. m i (omega (arith, e, l)))
scan_table_lem zero n inum (some k) t e h m =
    fresh k (omega (arith, e, h.0)) h.1 (λ i l. m i (omega (arith, e, l)))
scan_table_lem (suc left) n inum empty t e h m =
    scan_entry n inum t (ltb 0 (t n).ref && (t n).inum == inum)
      (scan_table left (suc n) inum (note_empty empty n (t n).ref) t) (omega (arith, e)) refl
      (λ q.
        scan_table_lem left (suc n) inum (note_empty empty n (t n).ref) t (omega (arith, e))
          (Empty-note_empty n empty t h) (Missing-suc n inum t m q))

iget-cases : (inum : ℕ) (t : Itable) → Iget inum t (iget inum t)
unfolding iget
iget-cases inum t =
    scan_table_lem ninode 0 inum none t (omega arith) (λ i l. absurd (omega (arith, l)))
      (λ i l. absurd (omega (arith, l)))

-- an entry with the inode, in a table with one entry per inode
abbrev pub IsEntry : (inum : ℕ) → Outcome (ℕ × Itable) → Type 0
IsEntry inum panic = Unit
IsEntry inum out_of_fuel = ⊥
IsEntry inum (ok (i, t)) = IsTable t × (i < ninode) × (0 < (t i).ref) × ((t i).inum ≡ inum)

IsTable-idup : (i : ℕ) (t : Itable) → 0 < (t i).ref → IsTable t → IsTable (idup i t)
unfolding idup
IsTable-idup i t r h = record {
  unique = λ j k l l' p q eq.
      h.unique j k l l' (ground (arith, p, r)) (ground (arith, q, r)) (ground (arith, eq));
}

IsTable-taken :
    (e inum : ℕ) (t : Itable) → Missing ninode inum t → IsTable t → IsTable (taken e inum t)
IsTable-taken e inum t m h = record {
  unique = λ j k l l' p q eq. elim (Bool-cases (e == j)) [
    | inl a ↦ elim (Bool-cases (e == k)) [
      | inl b ↦ ground (arith, a, b)
      | inr b ↦ absurd (m k l' (ground (arith, b, q)) (ground (arith, a, b, eq)))
    ]
    | inr a ↦ elim (Bool-cases (e == k)) [
      | inl b ↦ absurd (m j l (ground (arith, a, p)) (ground (arith, a, b, eq)))
      | inr b ↦
          h.unique j k l l' (ground (arith, a, p)) (ground (arith, b, q)) (ground (arith, a, b, eq))
    ]
  ];
}

IsEntry-Iget :
    (inum : ℕ) (t : Itable) (r : Outcome (ℕ × Itable)) → IsTable t → Iget inum t r → IsEntry inum r
unfolding idup
IsEntry-Iget inum t r h (hit i l u e) = (IsTable-idup i t u h, l, ground arith, ground (arith, e))
IsEntry-Iget inum t r h (fresh i l u m) =
    (IsTable-taken i inum t m h, l, ground arith, ground arith)
IsEntry-Iget inum t r h (full u m) = tt

-- `iget` on a table with one entry per inode returns the entry in use that has the inode, with one
-- reference more; without such an entry it takes a free one, with one reference and nothing
-- read; it panics only when each of the 50 entries is in use and none has the inode. The table
-- that it leaves again has one entry per inode, and the entry returned has the inode.
pub iget_lem :
    (inum : ℕ) (t : Itable) → IsTable t → Iget inum t (iget inum t) × IsEntry inum (iget inum t)
iget_lem inum t h = (iget-cases inum t, IsEntry-Iget inum t (iget inum t) h (iget-cases inum t))
