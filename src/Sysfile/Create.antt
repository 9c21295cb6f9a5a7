-- ===== src/Sysfile/Create.antt =====
-- kernel/sysfile.c: `create`, with the system calls that make directories and devices, and `sys_chdir`.
use paddle_os.Prelude.{
  ◌==◌, if◌then◌else◌, Outcome, ◌>>=◌, ℕ, ◌%◌, ◌^◌, Bool, true, false, not, ◌&&◌, ◌||◌, Option,
  none, some, List, ok,
}
use paddle_os.Memory.{Mem}
use paddle_os.Fs.{Fs}
use paddle_os.Inode.{Itable, iput}
use paddle_os.Inode.Alloc.{ialloc}
use paddle_os.Dir.{t_dir, dirlookup, dirlink, lock_entry}
use paddle_os.Sysfile.{
  t_file, t_device, more_links, dot, dot_dot, namei, nameiparent, refuse, update,
}

module _ (ninodes inodestart : ℕ) (de : Mem) (buffer : List ℕ) where
  -- `iunlockput(ip); return 0;`
  abbrev no_inode : (i : ℕ) → Itable → Fs → Outcome (Option ℕ × Itable × Fs)
  no_inode i t fs = iput inodestart i t fs >>= λ q. ok (none, q.0, q.1)

  -- `create` where the name is there
  unfoldable pub reuse : (d i kind : ℕ) → Itable → Fs → Outcome (Option ℕ × Itable × Fs)
  reuse d i kind t fs = iput inodestart d t fs >>= λ q. lock_entry inodestart i q.0 q.1 >>= λ t1.
      if kind == t_file && ((t1 i).kind == t_file || (t1 i).kind == t_device)
      then ok (some i, t1, q.1)
      else no_inode i t1 q.1

  -- the label `fail`
  unfoldable pub undo_create : (d i : ℕ) → Itable → Fs → Outcome (Option ℕ × Itable × Fs)
  undo_create d i t fs =
      update inodestart i (record (t i) { nlink = 0 }) t fs
        (λ t1 fs1. iput inodestart i t1 fs1 >>= λ q. no_inode d q.0 q.1)

  -- the entry of the new inode `i` in `d`
  unfoldable pub name_inode :
      (d i kind : ℕ) (name : List ℕ) → Itable → Fs → Outcome (Option ℕ × Itable × Fs)
  name_inode d i kind name t fs = dirlink inodestart name (t i).inum de d t fs >>= λ w.
      let finish : Itable → Fs → Outcome (Option ℕ × Itable × Fs) =
        λ t1 fs1. iput inodestart d t1 fs1 >>= λ q. ok (some i, q.0, q.1) in
      let counted =
        if kind == t_dir
        then update inodestart d (more_links (w.1 d)) w.1 w.2 finish
        else finish w.1 w.2 in
      if w.0 then counted else undo_create d i w.1 w.2

  -- `create` once the inode `i` is given out
  unfoldable pub fill_inode :
      (d i kind major minor : ℕ) (name : List ℕ) → Itable → Fs → Outcome (Option ℕ × Itable × Fs)
  fill_inode d i kind major minor name t fs = lock_entry inodestart i t fs >>= λ t1.
      let ip = record (t1 i) { major = major; minor = minor; nlink = 1 } in
      update inodestart i ip t1 fs (λ t2 fs2.
        let dots = dirlink inodestart dot (t2 i).inum de i t2 fs2 >>= λ w.
        let more = dirlink inodestart dot_dot (w.1 d).inum de i w.1 w.2 >>= λ v.
        let named = name_inode d i kind name v.1 v.2 in
        if v.0 then named else undo_create d i v.1 v.2 in
        if w.0 then more else undo_create d i w.1 w.2 in
        let named = name_inode d i kind name t2 fs2 in if kind == t_dir then dots else named)

  -- The inode that `create` returns is locked.
  unfoldable pub create :
      (path : List ℕ) (kind major minor cwd : ℕ) → Itable → Fs → Outcome (Option ℕ × Itable × Fs)
  create path kind major minor cwd t fs =
      nameiparent inodestart de buffer path cwd t fs >>= λ (d, name, t1, fs1). elim d [
        | none ↦ ok (none, t1, fs1)
        | some d ↦ lock_entry inodestart d t1 fs1 >>= λ t2.
            dirlookup name de d t2 fs1 >>= λ (e, t3, fs2). elim e [
              | some (i, off) ↦ reuse d i kind t3 fs2
              | none ↦ ialloc ninodes inodestart kind fs2 t3 >>= λ (a, fs3, t4). elim a [
                | none ↦ no_inode d t4 fs3
                | some i ↦ fill_inode d i kind major minor name t4 fs3
              ]
            ]
      ]

  unfoldable pub sys_mkdir : (path : List ℕ) (cwd : ℕ) → Itable → Fs → Outcome (Bool × Itable × Fs)
  sys_mkdir path cwd t fs = create path t_dir 0 0 cwd t fs >>= λ r. elim r.0 [
    | none ↦ ok (false, r.1, r.2)
    | some i ↦ iput inodestart i r.1 r.2 >>= λ q. ok (true, q.0, q.1)
  ]

  -- `major` and `minor` go into a `short`.
  unfoldable pub sys_mknod :
      (path : List ℕ) (major minor cwd : ℕ) → Itable → Fs → Outcome (Bool × Itable × Fs)
  sys_mknod path major minor cwd t fs =
      create path t_device (major % 2 ^ 16) (minor % 2 ^ 16) cwd t fs >>= λ r. elim r.0 [
        | none ↦ ok (false, r.1, r.2)
        | some i ↦ iput inodestart i r.1 r.2 >>= λ q. ok (true, q.0, q.1)
      ]

  -- With the new `cwd`.
  unfoldable pub sys_chdir :
      (path : List ℕ) (cwd : ℕ) → Itable → Fs → Outcome (Bool × ℕ × Itable × Fs)
  sys_chdir path cwd t fs = namei inodestart de buffer path cwd t fs >>= λ (o, t1, fs1). elim o [
    | none ↦ ok (false, cwd, t1, fs1)
    | some i ↦ lock_entry inodestart i t1 fs1 >>= λ t2.
        let refused = refuse inodestart i t2 fs1 >>= λ q. ok (q.0, cwd, q.1, q.2) in
        let moved = iput inodestart cwd t2 fs1 >>= λ q. ok (true, i, q.0, q.1) in
        if not ((t2 i).kind == t_dir) then refused else moved
  ]
