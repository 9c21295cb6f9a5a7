-- ===== src/File.antt =====
-- kernel/file.c: the table of open files and its reference counts. A pointer to a file is its index
-- in the table. `ref` is the value of the `int` where that is not negative. `fileclose` answers what
-- it goes on to do once the lock of the table is released.
pub mod Refs
mod Tests
use paddle_os.Prelude.{
  ltb, ◌==◌, if◌then◌else◌, put, Outcome, ℕ, zero, suc, ◌+◌, ◌-◌, Bool, Option, none, some, ok,
  panic,
}

-- `NFILE`
abbrev pub nfile : ℕ
nfile = 100

pub data FileType : Type 0 where
  fd_none : FileType
  fd_pipe : FileType
  fd_inode : FileType
  fd_device : FileType

pub record File : Type 0 where
  pub kind : FileType
  pub ref : ℕ
  pub readable : Bool
  pub writable : Bool
  pub pipe : ℕ
  pub ip : ℕ

abbrev pub Files : Type 0
Files = ℕ → File

unfoldable pub find_free : (left i : ℕ) → Files → Option ℕ
find_free zero i fs = none
find_free (suc left) i fs =
    let rest = find_free left (suc i) fs in if (fs i).ref == 0 then some i else rest

unfoldable pub filealloc : Files → Option ℕ × Files
filealloc fs = elim (find_free nfile 0 fs) [
  | none ↦ (none, fs)
  | some i ↦ (some i, put fs i (record (fs i) { ref = 1 }))
]

unfoldable pub filedup : ℕ → Files → Outcome Files
filedup i fs =
    if ltb (fs i).ref 1 then panic else ok (put fs i (record (fs i) { ref = (fs i).ref + 1 }))

-- what `fileclose` does with the copy of a file that nobody refers to any more
pub data Closing : Type 0 where
  nothing : Closing
  close_pipe : (pipe : ℕ) (writable : Bool) → Closing
  put_inode : (ip : ℕ) → Closing

unfoldable pub closing : File → Closing
closing f = elim f.kind [
  | fd_none ↦ nothing
  | fd_pipe ↦ close_pipe f.pipe f.writable
  | fd_inode ↦ put_inode f.ip
  | fd_device ↦ put_inode f.ip
]

unfoldable pub fileclose : ℕ → Files → Outcome (Closing × Files)
fileclose i fs =
    if ltb (fs i).ref 1
    then panic
    else if ltb 0 ((fs i).ref - 1)
    then ok (nothing, put fs i (record (fs i) { ref = (fs i).ref - 1 }))
    else ok (closing (fs i), put fs i (record (fs i) { ref = 0; kind = fd_none }))
