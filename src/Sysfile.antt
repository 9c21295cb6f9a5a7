-- ===== src/Sysfile.antt =====
-- kernel/sysfile.c: the system calls on descriptors and on the names of files, behind the fetching of
-- their arguments. `ofile` are the descriptors of the process, with a file as its index in the table
-- of files, and `cwd` is the entry of its directory. A result -1 is `none` or `false`. The transaction
-- of `begin_op` and `end_op` around a call is Log's. There is one device, so that `dp->dev == ip->dev`.
pub mod Create
pub mod Empty
pub mod Descriptors
mod Tests
use paddle_os.Prelude.{
  ltb, leb, ◌==◌, if◌then◌else◌, put, Outcome, ◌>>=◌, ℕ, zero, suc, ◌+◌, ◌-◌, ◌*◌, ◌%◌, ◌^◌, Bool,
  true, false, not, ◌||◌, Option, none, some, List, [], ◌∷◌, ok, panic, out_of_fuel,
}
use paddle_os.Memory.{Mem}
use paddle_os.Fs.{Fs}
use paddle_os.File.{Files, Closing, nothing, filedup, fileclose}
use paddle_os.Inode.{Inode, Itable, iupdate, iput}
use paddle_os.Data.{readi, writei}
use paddle_os.Data.Read.{kernel_copyout}
use paddle_os.Data.Block.{kernel_copyin}
use paddle_os.Dir.{t_dir, dirent_size, namecmp, de_inum, dirlookup, dirlink, lock_entry, namex}

-- `NOFILE`
abbrev pub nofile : ℕ
nofile = 16

abbrev pub t_file : ℕ
t_file = 2

abbrev pub t_device : ℕ
t_device = 3

abbrev pub Ofile : Type 0
Ofile = ℕ → Option ℕ

-- A negative `int` is 2 ^ 31 at least.
unfoldable pub argfd : (fd : ℕ) → Ofile → Option ℕ
argfd fd ofile = if ltb fd nofile then ofile fd else none

-- the loop of `fdalloc`
unfoldable pub fdalloc_from : (left fd f : ℕ) → Ofile → Option ℕ × Ofile
fdalloc_from zero fd f ofile = (none, ofile)
fdalloc_from (suc left) fd f ofile =
    let rest = fdalloc_from left (suc fd) f ofile in
    elim (ofile fd) [ none ↦ (some fd, put ofile fd (some f)) | some i ↦ rest ]

unfoldable pub fdalloc : (f : ℕ) → Ofile → Option ℕ × Ofile
fdalloc f ofile = fdalloc_from nofile 0 f ofile

unfoldable pub sys_dup : (fd : ℕ) → Ofile → Files → Outcome (Option ℕ × Ofile × Files)
sys_dup fd ofile files = elim (argfd fd ofile) [
  | none ↦ ok (none, ofile, files)
  | some f ↦
      let r = fdalloc f ofile in
      elim r.0 [
        | none ↦ ok (none, r.1, files)
        | some n ↦ filedup f files >>= λ files'. ok (some n, r.1, files')
      ]
]

-- With what `fileclose` goes on to do.
unfoldable pub sys_close : (fd : ℕ) → Ofile → Files → Outcome (Bool × Closing × Ofile × Files)
sys_close fd ofile files = elim (argfd fd ofile) [
  | none ↦ ok (false, nothing, ofile, files)
  | some f ↦ fileclose f files >>= λ r. ok (true, r.0, put ofile fd none, r.1)
]

-- The loop of `isdirempty`.
unfoldable pub scan_empty : (fuel off : ℕ) → Inode → Fs → Mem → Outcome (Bool × Inode × Fs)
scan_empty zero off dp fs de = out_of_fuel
scan_empty (suc fuel) off dp fs de =
    let round = readi kernel_copyout 0 off dirent_size dp fs de >>= λ r.
    let rest = scan_empty fuel (off + dirent_size) r.1 r.2 r.3 in
    elim r.0 [
      | none ↦ panic
      | some n ↦
          if not (n == dirent_size)
          then panic
          else if not (de_inum r.3 == 0)
          then ok (false, r.1, r.2)
          else rest
    ] in
    if ltb off dp.size then round else ok (true, dp, fs)

-- One round for each entry, and one to stop. `de` is not set before it is read.
unfoldable pub isdirempty : (de : Mem) → Inode → Fs → Outcome (Bool × Inode × Fs)
isdirempty de dp fs = scan_empty (dp.size + 1) (2 * dirent_size) dp fs de

-- `ip->nlink++` and `ip->nlink--` of a `short`
abbrev pub more_links : Inode → Inode
more_links ip = record ip { nlink = (ip.nlink + 1) % 2 ^ 16 }

abbrev pub fewer_links : Inode → Inode
fewer_links ip = record ip { nlink = (ip.nlink + (2 ^ 16 - 1)) % 2 ^ 16 }

-- `ip->nlink < 1`
abbrev pub no_links : Inode → Bool
no_links ip = ip.nlink == 0 || leb (2 ^ 15) ip.nlink

abbrev pub dot : List ℕ
dot = b'.' ∷ []

abbrev pub dot_dot : List ℕ
dot_dot = b'.' ∷ b'.' ∷ []

module _ (inodestart : ℕ) where
  -- `iunlockput(ip);` before -1
  abbrev pub refuse : (i : ℕ) → Itable → Fs → Outcome (Bool × Itable × Fs)
  refuse i t fs = iput inodestart i t fs >>= λ q. ok (false, q.0, q.1)

  -- an entry changed, and `iupdate`
  abbrev pub update :
      {B : Type 0} (i : ℕ) → Inode → Itable → Fs → (Itable → Fs → Outcome B) → Outcome B
  update i ip t fs continue = continue (put t i ip) (iupdate inodestart ip fs)

-- `buffer` is what the array `name` holds before it is set.
module _ (inodestart : ℕ) (de : Mem) (buffer : List ℕ) where
  abbrev pub namei : (path : List ℕ) (cwd : ℕ) → Itable → Fs → Outcome (Option ℕ × Itable × Fs)
  namei path cwd t fs = namex inodestart de false path buffer cwd t fs >>= λ r. ok (r.0, r.2, r.3)

  abbrev pub nameiparent :
      (path : List ℕ) (cwd : ℕ) → Itable → Fs → Outcome (Option ℕ × List ℕ × Itable × Fs)
  nameiparent path cwd t fs = namex inodestart de true path buffer cwd t fs

  -- the label `bad` of `sys_link`
  unfoldable pub undo_link : (i : ℕ) → Itable → Fs → Outcome (Bool × Itable × Fs)
  undo_link i t fs = lock_entry inodestart i t fs >>= λ t1.
      update inodestart i (fewer_links (t1 i)) t1 fs (refuse inodestart i)

  -- `sys_link` once the inode `i` counts the new name
  unfoldable pub link_name :
      (i : ℕ) (new : List ℕ) (cwd : ℕ) → Itable → Fs → Outcome (Bool × Itable × Fs)
  link_name i new cwd t fs = nameiparent new cwd t fs >>= λ (d, name, t1, fs1). elim d [
    | none ↦ undo_link i t1 fs1
    | some d ↦ lock_entry inodestart d t1 fs1 >>= λ t2.
        dirlink inodestart name (t2 i).inum de d t2 fs1 >>= λ w. iput inodestart d w.1 w.2 >>= λ q.
        let linked = iput inodestart i q.0 q.1 >>= λ p. ok (true, p.0, p.1) in
        if w.0 then linked else undo_link i q.0 q.1
  ]

  unfoldable pub sys_link :
      (old new : List ℕ) (cwd : ℕ) → Itable → Fs → Outcome (Bool × Itable × Fs)
  sys_link old new cwd t fs = namei old cwd t fs >>= λ (o, t1, fs1). elim o [
    | none ↦ ok (false, t1, fs1)
    | some i ↦ lock_entry inodestart i t1 fs1 >>= λ t2.
        if (t2 i).kind == t_dir
        then refuse inodestart i t2 fs1
        else update inodestart i (more_links (t2 i)) t2 fs1 (link_name i new cwd)
  ]

  -- `sys_unlink` from the place where the entry is cleared
  unfoldable pub clear_entry : (d i off : ℕ) → Itable → Fs → Outcome (Bool × Itable × Fs)
  clear_entry d i off t fs =
      writei (kernel_copyin (λ a. 0)) inodestart 0 off dirent_size (t d) fs >>= λ w.
      let t1 = put t d w.1 in
      let finish : Itable → Fs → Outcome (Bool × Itable × Fs) = λ t2 fs2.
        iput inodestart d t2 fs2 >>= λ q.
        update inodestart i (fewer_links (q.0 i)) q.0 q.1
          (λ t3 fs3. iput inodestart i t3 fs3 >>= λ p. ok (true, p.0, p.1)) in
      let written =
        if (t1 i).kind == t_dir
        then update inodestart d (fewer_links (t1 d)) t1 w.2 finish
        else finish t1 w.2 in
      elim w.0 [ none ↦ panic | some n ↦ if n == dirent_size then written else panic ]

  unfoldable pub sys_unlink : (path : List ℕ) (cwd : ℕ) → Itable → Fs → Outcome (Bool × Itable × Fs)
  sys_unlink path cwd t fs = nameiparent path cwd t fs >>= λ (d, name, t1, fs1). elim d [
    | none ↦ ok (false, t1, fs1)
    | some d ↦ lock_entry inodestart d t1 fs1 >>= λ t2.
        let search = dirlookup name de d t2 fs1 >>= λ e. elim e.0 [
          | none ↦ refuse inodestart d e.1 e.2
          | some (i, off) ↦ lock_entry inodestart i e.1 e.2 >>= λ t3.
              let empty = isdirempty de (t3 i) e.2 >>= λ b.
              let t4 = put t3 i b.1 in
              let kept = iput inodestart i t4 b.2 >>= λ q. refuse inodestart d q.0 q.1 in
              let cleared = clear_entry d i off t4 b.2 in if b.0 then cleared else kept in
              let cleared = clear_entry d i off t3 e.2 in
              if no_links (t3 i) then panic else if (t3 i).kind == t_dir then empty else cleared
        ] in
        if namecmp name dot || namecmp name dot_dot then refuse inodestart d t2 fs1 else search
  ]
