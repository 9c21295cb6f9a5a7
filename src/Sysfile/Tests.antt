-- ===== src/Sysfile/Tests.antt =====
-- kernel/sysfile.c with a process that has two files open, and a directory with one name.
use paddle_os.Prelude.{◌==◌, if◌then◌else◌, ℕ, ◌≡◌, refl, true, false, none, some, arith}
use paddle_os.Memory.{Mem}
use paddle_os.File.{File, Files, fd_none, fd_pipe, fd_inode}
use paddle_os.File.Refs.{HasRefs}
use paddle_os.Fs.{Fs}
use paddle_os.Inode.{Inode}
use paddle_os.Data.Content.{block_of}
use paddle_os.Dir.Entries.{IsDir}
use paddle_os.Sysfile.{Ofile, argfd, fdalloc, fdalloc_from, sys_dup, sys_close, isdirempty}
use paddle_os.Sysfile.Empty.{Emptiness, isdirempty_lem}
use paddle_os.Sysfile.Descriptors.{count, held, Dup, Close, sys_dup-sys_close}

abbrev free_file : File
free_file = record { kind = fd_none; ref = 0; readable = false; writable = false; pipe = 0; ip = 0 }

abbrev files : Files
files i =
    if i == 0
    then record free_file { kind = fd_pipe; ref = 1; writable = true; pipe = 4096 }
    else if i == 1
    then record free_file { kind = fd_inode; ref = 2; readable = true; ip = 5 }
    else free_file

abbrev ofile : Ofile
ofile fd = if fd == 0 then some 1 else if fd == 2 then some 0 else none

-- another process has the file 1 too
abbrev others : ℕ → ℕ
others i = if i == 1 then 1 else 0

files-HasRefs : HasRefs files (held ofile others)
unfolding count
files-HasRefs = record { counted = λ i. ground arith }

sys_dup-sys_close_example :
    Dup 2 ofile files others (sys_dup 2 ofile files)
    × Close 2 ofile files others (sys_close 2 ofile files)
sys_dup-sys_close_example = sys_dup-sys_close 2 ofile files others files-HasRefs

abbrev entries : ℕ → ℕ
entries a =
    if a == 0
    then 3
    else if a == 2
    then 46
    else if a == 16
    then 1
    else if a == 18
    then 46
    else if a == 19
    then 46
    else if a == 32
    then 9
    else if a == 34
    then 97
    else 0

abbrev dir : Inode
dir = record {
  inum = 3;
  ref = 1;
  valid = true;
  kind = 1;
  major = 0;
  minor = 0;
  nlink = 1;
  size = 48;
  addrs = λ n. if n == 0 then 50 else 0;
}

abbrev disk : Fs
disk = record {
  block = λ b i. if b == 50 then entries i else 0;
  logged = λ b. false;
  size = 1000;
  bmapstart = 40;
}

dir-IsDir : IsDir dir disk
unfolding block_of
dir-IsDir = record {
  mapped = record {
    size = omega arith;
    blocks = λ bn l. ground (arith, l);
    indirect = λ l. absurd (omega (arith, l));
  };
  whole = refl;
}

abbrev zeros : Mem
zeros a = 0

isdirempty_lem_example : Emptiness dir disk (isdirempty zeros dir disk)
isdirempty_lem_example = isdirempty_lem zeros dir disk dir-IsDir

-- Descriptor 1 is the lowest that is free, and 5 is not open.
dup_lowest : argfd 5 ofile ≡ none × (fdalloc 0 ofile).0 ≡ some 1
unfolding argfd fdalloc fdalloc_from
dup_lowest = (refl, refl)
