-- ===== src/Dir/Resolve.antt =====
-- `namex` of kernel/fs.c by the names of the path.
use paddle_os.Prelude.{
  ◌==◌, if◌then◌else◌, put, length, take, Outcome, ◌>>=◌, ℕ, zero, suc, ◌+◌, ◌<◌, ◌≡◌, refl, ap₂,
  ◌∙◌, fun_ext, Bool, true, false, not, ◌&&◌, Option, none, some, List, [], ◌∷◌, arith, ok, panic,
  out_of_fuel,
}
use paddle_os.Memory.{Mem}
use paddle_os.Fs.{Fs}
use paddle_os.Inode.{Itable, ilock, iget, iput, idup}
use paddle_os.Path.{dirsiz, skipelem}
use paddle_os.Path.Names.{
  names, starts_slash, nonempty, segments, cons_head, Skipped, no_name, one_name, skipelem_lem,
}
use paddle_os.Dir.{is_empty, visit, arrive, namex_loop, start_entry, namex, dirlookup}

abbrev pub none_left : List (List ℕ) → Bool
none_left [] = true
none_left (n ∷ ns) = false

-- no inode, with the reference to `i` given back
abbrev pub nowhere :
    (inodestart i : ℕ) (name : List ℕ) → Itable → Fs → Outcome (Option ℕ × List ℕ × Itable × Fs)
nowhere s i name t fs = iput s i t fs >>= λ q. ok (none, name, q.0, q.1)

-- The resolution of a list of names from the inode `i` on, which must be a directory while names are
-- left. Each is cut to 14 bytes and looked up in turn, and the directory is given back. For the
-- parent it stops before the last name, and there must be one. The result has the last name.
unfoldable pub resolve :
    (inodestart : ℕ) (de : Mem) (parent : Bool)
    → List (List ℕ)
    → (name : List ℕ) (i : ℕ) → Itable
    → Fs
    → Outcome (Option ℕ × List ℕ × Itable × Fs)
resolve s de parent [] name i t fs =
    if parent then nowhere s i name t fs else ok (some i, name, t, fs)
resolve s de parent (n ∷ ns) name i t fs = ilock s fs (t i) >>= λ ip.
    let found = dirlookup (take dirsiz n) de i (put t i ip) fs >>= λ r. elim r.0 [
      | none ↦ nowhere s i (take dirsiz n) r.1 r.2
      | some f ↦ iput s i r.1 r.2 >>= λ q. resolve s de parent ns (take dirsiz n) f.0 q.0 q.1
    ] in
    if not (ip.kind == 1)
    then nowhere s i (take dirsiz n) (put t i ip) fs
    else if parent && none_left ns
    then ok (some i, take dirsiz n, put t i ip, fs)
    else found

-- An absolute path starts at the inode 1, the root, and any other at the process's directory.
unfoldable pub origin : (path : List ℕ) (cwd : ℕ) → Itable → Outcome (ℕ × Itable)
origin path cwd t =
    if starts_slash path
    then iget 1 t
    else ok (cwd, put t cwd (record (t cwd) { ref = (t cwd).ref + 1 }))

origin-start_entry :
    (path : List ℕ) (cwd : ℕ) (t : Itable) → start_entry path cwd t ≡ origin path cwd t
unfolding start_entry origin idup
origin-start_entry [] cwd t = refl
origin-start_entry (c ∷ path) cwd t = refl

through :
    {A B C : Type 0} (o : Outcome A) (f : A → B) (G : B → Outcome C) (H : A → Outcome C)
    → ((a : A) → G (f a) ≡ H a)
    → ((o >>= λ a. ok (f a)) >>= G) ≡ (o >>= H)
through (ok a) f G H h = h a
through panic f G H h = refl
through out_of_fuel f G H h = refl

-- a round of the loop against a name of the list
visit-resolve :
    (s : ℕ) (de : Mem) (parent : Bool) (n : List ℕ) (ns : List (List ℕ)) (name : List ℕ) (i : ℕ)
    (t : Itable) (fs : Fs)
    → visit s de parent
        (none_left ns)
        (take dirsiz n)
        (resolve s de parent ns (take dirsiz n))
        i
        t
        fs
      ≡ resolve s de parent (n ∷ ns) name i t fs
unfolding resolve
visit-resolve s de parent n ns name i t fs =
    let same : (i == i) ≡ true = ground arith in
    through (ilock s fs (t i)) (λ ip. put t i ip) _ _ (λ ip. rw same refl)

none_left-cons_head : (c : ℕ) (ss : List (List ℕ)) → false ≡ none_left (nonempty (cons_head c ss))
none_left-cons_head c [] = refl
none_left-cons_head c (s ∷ ss) = refl

is_empty-names :
    (path : List ℕ) → starts_slash path ≡ false → is_empty path ≡ none_left (names path)
unfolding segments
is_empty-names [] e = refl
is_empty-names (c ∷ path) e = rw e (none_left-cons_head c (segments path))

module _ (s : ℕ) (de : Mem) (parent : Bool) where
  -- one round, where the shorter paths are resolved by `F`
  round-resolve :
      (F : List ℕ → List ℕ → ℕ → Itable → Fs → Outcome (Option ℕ × List ℕ × Itable × Fs))
      (path name : List ℕ) (i : ℕ) (t : Itable) (fs : Fs) (r : Option (List ℕ × List ℕ))
      → Skipped path r
      → ((rest name : List ℕ) (i : ℕ) (t : Itable) (fs : Fs)
          → length rest < length path
          → F rest name i t fs ≡ resolve s de parent (names rest) name i t fs)
      → (elim r [
        | none ↦ arrive s de parent name i t fs
        | some e ↦ visit s de parent (is_empty e.1) e.0 (F e.1 e.0) i t fs
      ])
        ≡ resolve s de parent (names path) name i t fs
  unfolding resolve
  round-resolve F path name i t fs r (no_name e) h = rw e refl
  round-resolve F path name i t fs r (one_name n rest e st l) h = rw e (
      ap₂ (λ b G. visit s de parent b (take dirsiz n) G i t fs) (is_empty-names rest st)
        (fun_ext (λ i. fun_ext (λ t. fun_ext (λ fs. h rest (take dirsiz n) i t fs l))))
      ∙ visit-resolve s de parent n (names rest) name i t fs)

  namex_loop-resolve :
      (fuel : ℕ) (path name : List ℕ) (i : ℕ) (t : Itable) (fs : Fs)
      → length path < fuel
      → namex_loop s de parent fuel path name i t fs ≡ resolve s de parent (names path) name i t fs
  unfolding namex_loop
  namex_loop-resolve zero path name i t fs l = absurd (omega (arith, l))
  namex_loop-resolve (suc fuel) path name i t fs l =
      round-resolve (namex_loop s de parent fuel) path name i t fs (skipelem path)
        (skipelem_lem path)
        (λ rest name i t fs k. namex_loop-resolve fuel rest name i t fs (omega (arith, l, k)))

-- `namex` starts at the inode 1 for a path that starts with a slash, and at the process's directory
-- for any other, and resolves the names of the path from there: each, cut to 14 bytes, is looked up
-- in the inode before, which must be a directory and is given back, however many slashes stand between
-- them. For the parent it stops before the last name. It ends as the lookups do.
pub namex_lem :
    (s : ℕ) (de : Mem) (parent : Bool) (path name : List ℕ) (cwd : ℕ) (t : Itable) (fs : Fs)
    → namex s de parent path name cwd t fs
      ≡ (origin path cwd t >>= λ e. resolve s de parent (names path) name e.0 e.1 fs)
unfolding namex
namex_lem s de parent path name cwd t fs =
    ap₂ (λ o F. o >>= λ e. F e.0 e.1) (origin-start_entry path cwd t)
      (fun_ext (λ i.
        fun_ext
          (λ t. namex_loop-resolve s de parent (length path + 1) path name i t fs (omega arith))))
