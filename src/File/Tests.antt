-- ===== src/File/Tests.antt =====
-- The file table of kernel/file.c with two open files, one of them held twice.
use paddle_os.Prelude.{◌==◌, if◌then◌else◌, ℕ, refl, true, false}
use paddle_os.File.{File, Files, fd_none, fd_pipe, fd_inode}
use paddle_os.File.Refs.{HasRefs}

abbrev free_file : File
free_file = record { kind = fd_none; ref = 0; readable = false; writable = false; pipe = 0; ip = 0 }

abbrev files : Files
files i =
    if i == 0
    then record free_file { kind = fd_pipe; ref = 1; writable = true; pipe = 4096 }
    else if i == 1
    then record free_file { kind = fd_inode; ref = 2; readable = true; ip = 5 }
    else free_file

abbrev holders : ℕ → ℕ
holders i = (files i).ref

files-HasRefs : HasRefs files holders
files-HasRefs = record { counted = λ i. refl }
