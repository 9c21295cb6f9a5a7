-- ===== src/Dir.antt =====
-- kernel/fs.c: directories and path resolution. A directory is a file of entries of 16 bytes, the
-- number of an inode and a name of 14 bytes. A pointer to an inode is its index in `itable`, and the
-- null pointer `none`. A name is the list of its bytes up to a 0 or its end. The sleep locks are
-- Sleeplock's and left out, with `iunlock`; `cwd` is the entry of the process's directory.
pub mod Entries
pub mod Lookup
pub mod Resolve
mod Tests
use paddle_os.Prelude.{
  ltb, ◌==◌, if◌then◌else◌, put, length, Outcome, ◌>>=◌, ℕ, zero, suc, ◌+◌, ◌%◌, ◌^◌, Bool, true,
  false, not, ◌&&◌, Option, none, some, List, [], ◌∷◌, ok, panic, out_of_fuel,
}
use paddle_os.Memory.{Mem}
use paddle_os.Memory.Words.{load_word, store_word}
use paddle_os.Fs.{Fs}
use paddle_os.Inode.{Inode, Itable, ilock, iget, idup, iput}
use paddle_os.Path.{dirsiz, slash, skipelem}
use paddle_os.Data.{read_bytes, write_bytes, readi, writei}
use paddle_os.Data.Read.{kernel_copyout}
use paddle_os.Data.Block.{kernel_copyin}

-- `T_DIR`
abbrev pub t_dir : ℕ
t_dir = 1

-- `sizeof(struct dirent)`
abbrev pub dirent_size : ℕ
dirent_size = 16

-- Whether `strncmp` of `n` bytes is 0. Behind its end a name has a 0.
unfoldable pub same_bytes : (n : ℕ) → List ℕ → List ℕ → Bool
same_bytes zero s t = true
same_bytes (suc n) [] [] = true
same_bytes (suc n) [] (y ∷ t) = y == 0
same_bytes (suc n) (x ∷ s) [] = x == 0
same_bytes (suc n) (x ∷ s) (y ∷ t) =
    let rest = same_bytes n s t in if not (x == 0) && (x == y) then rest else x == y

-- `namecmp(s, t) == 0`
abbrev pub namecmp : List ℕ → List ℕ → Bool
namecmp s t = same_bytes dirsiz s t

-- `de.inum` and `de.name`, where `de` is read into the memory of its own
abbrev pub de_inum : Mem → ℕ
de_inum de = load_word 2 de 0

abbrev pub de_name : Mem → List ℕ
de_name de = read_bytes dirsiz 2 de

-- The loop of `dirlookup`: the number of the inode, and where the entry is.
unfoldable pub find_entry :
    (fuel off : ℕ) (name : List ℕ) → Inode → Fs → Mem → Outcome (Option (ℕ × ℕ) × Inode × Fs)
find_entry zero off name dp fs de = out_of_fuel
find_entry (suc fuel) off name dp fs de =
    let round = readi kernel_copyout 0 off dirent_size dp fs de >>= λ r.
    let rest = find_entry fuel (off + dirent_size) name r.1 r.2 r.3 in
    elim r.0 [
      | none ↦ panic
      | some n ↦
          if not (n == dirent_size)
          then panic
          else if de_inum r.3 == 0
          then rest
          else if namecmp name (de_name r.3)
          then ok (some (de_inum r.3, off), r.1, r.2)
          else rest
    ] in
    if ltb off dp.size then round else ok (none, dp, fs)

-- One round for each entry, and one to stop. `de` is not set before it is read.
unfoldable pub dirlookup :
    (name : List ℕ) (de : Mem) (i : ℕ) → Itable → Fs → Outcome (Option (ℕ × ℕ) × Itable × Fs)
dirlookup name de i t fs =
    if not ((t i).kind == t_dir)
    then panic
    else find_entry ((t i).size + 1) 0 name (t i) fs de >>= λ r. elim r.0 [
      | none ↦ ok (none, put t i r.1, r.2)
      | some e ↦ iget e.0 (put t i r.1) >>= λ g. ok (some (g.0, e.1), g.1, r.2)
    ]

-- The second loop of `dirlink`: the place of the first free entry, or the end.
unfoldable pub free_entry : (fuel off : ℕ) → Inode → Fs → Mem → Outcome (ℕ × Inode × Fs)
free_entry zero off dp fs de = out_of_fuel
free_entry (suc fuel) off dp fs de =
    let round = readi kernel_copyout 0 off dirent_size dp fs de >>= λ r.
    let rest = free_entry fuel (off + dirent_size) r.1 r.2 r.3 in
    elim r.0 [
      | none ↦ panic
      | some n ↦
          if not (n == dirent_size)
          then panic
          else if de_inum r.3 == 0
          then ok (off, r.1, r.2)
          else rest
    ] in
    if ltb off dp.size then round else ok (off, dp, fs)

-- `strncpy(name, s, DIRSIZ)`
unfoldable pub padded : (n : ℕ) → List ℕ → List ℕ
padded zero s = []
padded (suc n) [] = 0 ∷ padded n []
padded (suc n) (c ∷ s) = if c == 0 then 0 ∷ padded n [] else c ∷ padded n s

-- `de.inum` and `de.name` set
abbrev pub new_entry : (name : List ℕ) (inum : ℕ) (de : Mem) → Mem
new_entry name inum de = store_word 2 (write_bytes (padded dirsiz name) 2 de) 0 (inum % 2 ^ 16)

-- `true` is 0, and `false` is -1.
unfoldable pub dirlink :
    (inodestart : ℕ) (name : List ℕ) (inum : ℕ) (de : Mem) (i : ℕ)
    → Itable
    → Fs
    → Outcome (Bool × Itable × Fs)
dirlink s name inum de i t fs = dirlookup name de i t fs >>= λ r. elim r.0 [
  | some e ↦ iput s e.0 r.1 r.2 >>= λ q. ok (false, q.0, q.1)
  | none ↦ free_entry ((r.1 i).size + 1) 0 (r.1 i) r.2 de >>= λ q.
      writei (kernel_copyin (new_entry name inum de)) s 0 q.0 dirent_size q.1 q.2 >>= λ w.
      ok ((elim w.0 [ none ↦ false | some n ↦ n == dirent_size ]), put r.1 i w.1, w.2)
]

abbrev pub is_empty : List ℕ → Bool
is_empty [] = true
is_empty (c ∷ path) = false

-- `ilock` of an entry of the table
abbrev pub lock_entry : (inodestart i : ℕ) → Itable → Fs → Outcome Itable
lock_entry s i t fs = ilock s fs (t i) >>= λ ip. ok (put t i ip)

-- `iunlockput(ip); return 0;`
abbrev pub give_up :
    (inodestart i : ℕ) (name : List ℕ) → Itable → Fs → Outcome (Option ℕ × List ℕ × Itable × Fs)
give_up s i name t fs = iput s i t fs >>= λ q. ok (none, name, q.0, q.1)

-- where `namex` starts: the root directory, which has the inode 1, or the process's
unfoldable pub start_entry : (path : List ℕ) (cwd : ℕ) → Itable → Outcome (ℕ × Itable)
start_entry [] cwd t = ok (cwd, idup cwd t)
start_entry (c ∷ path) cwd t = if c == slash then iget 1 t else ok (cwd, idup cwd t)

module _ (inodestart : ℕ) (de : Mem) (parent : Bool) where
  -- A round of `namex` at the inode `i`, for the name `elem`; `last` is whether no path is left behind
  -- it, and `continue` is the rest of the loop.
  abbrev pub visit :
      (last : Bool) (elem : List ℕ)
      → (ℕ → Itable → Fs → Outcome (Option ℕ × List ℕ × Itable × Fs))
      → (i : ℕ) → Itable
      → Fs
      → Outcome (Option ℕ × List ℕ × Itable × Fs)
  visit last elem continue i t fs = lock_entry inodestart i t fs >>= λ t1.
      let next = dirlookup elem de i t1 fs >>= λ r. elim r.0 [
        | none ↦ give_up inodestart i elem r.1 r.2
        | some f ↦ iput inodestart i r.1 r.2 >>= λ q. continue f.0 q.0 q.1
      ] in
      if not ((t1 i).kind == t_dir)
      then give_up inodestart i elem t1 fs
      else if parent && last
      then ok (some i, elem, t1, fs)
      else next

  -- the end of the path
  abbrev pub arrive :
      (name : List ℕ) (i : ℕ) → Itable → Fs → Outcome (Option ℕ × List ℕ × Itable × Fs)
  arrive name i t fs = if parent then give_up inodestart i name t fs else ok (some i, name, t, fs)

  -- The loop of `namex`; `name` is what the buffer holds.
  unfoldable pub namex_loop :
      (fuel : ℕ) (path name : List ℕ) (i : ℕ)
      → Itable
      → Fs
      → Outcome (Option ℕ × List ℕ × Itable × Fs)
  namex_loop zero path name i t fs = out_of_fuel
  namex_loop (suc fuel) path name i t fs = elim (skipelem path) [
    | none ↦ arrive name i t fs
    | some e ↦ visit (is_empty e.1) e.0 (namex_loop fuel e.1 e.0) i t fs
  ]

  -- One round for each name, and one to stop.
  unfoldable pub namex :
      (path name : List ℕ) (cwd : ℕ) → Itable → Fs → Outcome (Option ℕ × List ℕ × Itable × Fs)
  namex path name cwd t fs =
      start_entry path cwd t >>= λ e. namex_loop (length path + 1) path name e.0 e.1 fs
