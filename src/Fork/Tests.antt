-- ===== src/Fork/Tests.antt =====
-- `fork` of kernel/proc.c by a process of one page that has one file open twice and a pipe.
use paddle_os.Prelude.{◌==◌, if◌then◌else◌, ℕ, true, false, ◌||◌, none, some}
use paddle_os.File.{File, Files, fd_none, fd_pipe, fd_inode}
use paddle_os.Sysfile.{Ofile}
use paddle_os.Fork.{Machine}
use paddle_os.Inode.{Inode}
use paddle_os.Proc.{Proc, running, used}
use paddle_os.Fork.Copy.{memory}

abbrev free_file : File
free_file = record { kind = fd_none; ref = 0; readable = false; writable = false; pipe = 0; ip = 0 }

abbrev files : Files
files i =
    if i == 0
    then record free_file { kind = fd_pipe; ref = 1; writable = true; pipe = 4096 }
    else if i == 1
    then record free_file { kind = fd_inode; ref = 3; readable = true; ip = 5 }
    else free_file

abbrev parent : Ofile
parent fd = if fd == 0 || fd == 1 then some 1 else if fd == 3 then some 0 else none

abbrev no_files : Ofile
no_files fd = none

abbrev others : ℕ → ℕ
others i = if i == 1 then 1 else 0

abbrev parent_process : Proc
parent_process = record {
  state = running;
  chan = 0;
  killed = false;
  xstate = 0;
  pid = 7;
  parent = none;
  sz = 4096;
  pagetable = 4096;
  trapframe = 40960;
}

-- as `allocproc` leaves it
abbrev child_process : Proc
child_process = record parent_process {
  state = used;
  pid = 8;
  sz = 0;
  pagetable = 20480;
  trapframe = 45056;
}

abbrev root : Inode
root = record {
  inum = 1;
  ref = 2;
  valid = true;
  kind = 1;
  major = 0;
  minor = 0;
  nlink = 1;
  size = 32;
  addrs = λ i. 0;
}

abbrev machine : Machine
machine = record {
  table = record { procs = λ p. if p == 0 then parent_process else child_process; nextpid = 9 };
  kmem = memory;
  ofiles = λ p. if p == 0 then parent else no_files;
  files = files;
  cwds = λ p. 0;
  itable = λ i. root;
}
