-- ===== src/Lib.antt =====
-- Verification of the core of the paddle-os kernel, a teaching kernel for RISC-V in the style of
-- xv6, of the pattern matcher of its grep and of the parser of its shell.
--
-- The program. `kernel/` is the kernel: it boots every CPU into `main`, which sets up the page
-- allocator, the page tables, the process table, the traps, the buffer cache, the log and the disk,
-- and then runs the scheduler. System calls come in through the trap code and end in the file layer
-- (files, pipes, inodes, log, buffers), the process layer and the memory layer. `user/` holds the
-- user programs, `mkfs/` the program that writes the file system image.
--
-- The files and the code they model. Functions keep the names of the source.
--   Memory       kernel/string.c over a flat memory of bytes: `memset`, `memcpy`, `memmove`,
--                `memcmp`, `strlen`, `strncmp`, `strncpy`, `safestrcpy`. Memory/Move, Memory/Copy,
--                Memory/Strings and Memory/Words prove about them and about 8-byte words.
--   Kalloc       kernel/kalloc.c: the free list lies in the free pages themselves, as a chain of
--                64-bit words of that memory. Kalloc/FreeList is about one call of `kfree` or
--                `kalloc`, Kalloc/Init about `kinit`.
--   Spinlock     kernel/spinlock.c: `push_off`, `pop_off`, `holding` and `initlock` as functions.
--                Spinlock/System has `acquire` and `release` as a step relation on many CPUs and
--                many locks, one shared access at a time; Spinlock/Exclusion proves about it, and
--                Spinlock/Interrupts about nested `push_off` and `pop_off`.
--   Log          kernel/log.c: the write-ahead log. Disk writes can be cut off by a crash at any
--                moment; Log/Steps, Log/Writes and Log/Header follow the writes, Log/Recovery the
--                start after a crash, Log/Atomic the two together, Log/Ends the count of writes,
--                Log/Space the reservation of log space by `begin_op` and `end_op`.
--   Pipe         kernel/pipe.c: one run of `pipewrite` or `piperead` between two sleeps is a
--                function. Pipe/Fifo reads the pipe as a queue; Pipe/Write, Pipe/Read and
--                Pipe/Close are about the calls. Ring has the circular arrays in general.
--   Proc         kernel/proc.c: the process table with `allocproc`, `freeproc`, `wakeup`, `kill`,
--                `reparent`, `exit` and `wait`. Proc/Invariant has what a well-formed table is.
--   Fork         kernel/proc.c: `fork` and `growproc`, on the process table, the memory, the files and
--                the inode table together. Fork/Children is about the descriptors of the child,
--                Fork/Child about all that it has. Fork/Copy runs `uvmcopy` for
--                the tests.
--   Sched        kernel/proc.c: `sleep` and `wakeup` with the scheduler's switches, as a step relation
--                on any number of processes that wait for a condition or make it true. Sched/Locks
--                has who holds which lock, Sched/Rest the entries that nobody holds, Sched/Wakeups
--                the sleepers.
--   Sleeplock    kernel/sleeplock.c: the functions up to where they sleep, and a step relation on
--                any number of processes; Sleeplock/Exclusion proves about it.
--   File         kernel/file.c: `filealloc`, `filedup` and `fileclose` on the file table.
--                File/Refs compares the counts with the references held.
--   Bio          kernel/bio.c: the buffer cache over its doubly linked list. Bio/Chain and Bio/Order
--                have the list, Bio/Get the search of `bget`, Bio/Keeps `bread`, and Bio/Release
--                `brelse` and `binit`.
--   Fs           kernel/fs.c: the block bitmap with `balloc`, `bfree` and `bzero`. Fs/Bits and
--                Fs/Bitmap are about bits, Fs/Balloc about the functions.
--   Inode        kernel/fs.c: the inode table and the inodes of the disk, with `iget`, `idup`,
--                `ilock`, `iupdate`, `bmap`, `itrunc` and `iput`. Inode/Layout and Inode/Update are
--                about the disk's fields, Inode/Get about the table, Inode/Map about `bmap`;
--                Inode/Alloc is `ialloc`.
--   Data         kernel/fs.c: `readi` and `writei`, the bytes of a file. Data/Content has the file as
--                a function from offsets to bytes; Data/Read, Data/Block and Data/Write follow the two
--                loops, Data/Round the two calls together.
--   Dir          kernel/fs.c: directories and paths, with `dirlookup`, `dirlink` and `namex` on top of
--                Data, Inode and Path. Dir/Entries and Dir/Lookup are about the entries, Dir/Resolve
--                about paths.
--   Sysfile      kernel/sysfile.c: the descriptors of a process with `sys_dup` and `sys_close`, and the
--                calls on names, `sys_link` and `sys_unlink`, on top of Dir, Inode and File.
--                Sysfile/Create has `create` with the calls that make directories and devices and
--                `sys_chdir`, Sysfile/Empty `isdirempty`, and Sysfile/Descriptors compares the
--                descriptors with the reference counts of File.
--   Vm           kernel/vm.c: `walk`, `walkaddr`, `mappages`, `uvmunmap` and `uvmdealloc` over page
--                tables in the memory of Kalloc. Vm/Space has the other operations on a user's
--                address space, Vm/Transfer the copies between it and the kernel; Vm/Walk and
--                Vm/Copy prove about them.
--   Console      kernel/console.c: `consoleintr` and a run of `consoleread`. Console/Lines reads the
--                buffer as two lists, Console/Editor is a line editor on them; Console/Rubout,
--                Console/Enter and Console/Edit prove about `consoleintr`, Console/Read about
--                `consoleread`.
--   Uart         kernel/uart.c: the transmit buffer, with `uartputc` and `uartstart`. Uart/Queue
--                reads it as a queue.
--   Printf       kernel/printf.c and user/printf.c, with `atoi` of user/ulib.c. Printf/Digits and
--                Printf/Numbers are about numbers, Printf/Pieces about format strings.
--   Path         kernel/fs.c: `skipelem`, the first name of a path. Path/Names has the names of a
--                path on their own.
--   Grep         user/grep.c: `match`, here `find`, with `matchhere` and `matchstar`.
--                Grep/Language has the language of a pattern as a relation.
--   Shell        user/sh.c: the tokens and the parser, up to the tree of a command. Shell/Print has the
--                text of a command; Shell/Tokens, Shell/Redirs, Shell/Args, Shell/Stops and Shell/Levels
--                follow the parser through such a text from the bottom up, and Shell/RoundTrip puts
--                the levels together.
--   Prelude      the names and lemmas that the modules share.
-- Each Tests module runs the definitions at concrete inputs.
--
-- Numbers. Machine integers are natural numbers with their wrap written out (`% 2 ^ 32` for `uint`
-- and for `int` where its sign matters, bytes and 64-bit words in Memory and Kalloc). Addresses are
-- natural numbers.
--
-- Fuel. `freerange` goes over the memory on fuel; `kinit` gives it one round more than the 32768
-- pages of 128 MB, one for each page and one to stop. `put_digits` has room for the 16 characters
-- of the source's buffer. A walk around the buffers takes a round for each and one for the head, and
-- `balloc` one for each bitmap block and one to stop; Ctrl-U takes a round for each of the 128
-- characters and one to stop, and `uartstart` for each of the 32. The copies of Vm/Transfer copy a
-- byte at least in each round, so that the length is enough; `freewalk` recurses to the depth 3 of a
-- page table; `readi` and `writei` copy a byte at least in each round, so that the length is enough;
-- a directory is read in one round for each entry and one to stop, and a path in one for each name
-- and one to stop; `parsecmd` gives its calls four units for each byte and four more; `mappages`
-- takes a round for each page, and `uvmalloc` and `uvmcopy` one more; `fork` and `growproc` give these
-- a round for each byte, which is more. All other loops recurse on the count or the list that the
-- source's loop runs over. In Log,
-- `writes_left` is no fuel of a loop but the moment at which the power fails.
--
-- What stands outside. A write of one disk block is atomic. In Log, `bread` always finds a buffer; the
-- panic of `bget` where every buffer is in use is in Bio. The parts of a lock's critical section
-- run as one step, in Spinlock/System excepted, which is about the lock itself. `copyin` and
-- `copyout` of a byte are arguments of the pipe's functions. A function of the process table is one
-- step, while the source takes the lock of each entry in turn.
--
-- Not modelled: the kernel's own mappings, traps, the arguments of system calls, `sys_open`,
-- `sys_pipe`, `exec`, the disk driver and the registers of the devices, the panics of `sched`
-- and the choice of the scheduler; the user programs and libraries besides grep's matcher, the
-- shell's parser, `printf` and `atoi`; `mkfs`; assembly and start-up code.
pub mod Prelude
pub mod Memory
pub mod Kalloc
pub mod Spinlock
pub mod Log
pub mod Grep
pub mod Ring
pub mod Pipe
pub mod Proc
pub mod Path
pub mod File
pub mod Sleeplock
pub mod Printf
pub mod Shell
pub mod Sysfile
pub mod Fork
pub mod Sched
pub mod Dir
pub mod Data
pub mod Uart
pub mod Console
pub mod Vm
pub mod Bio
pub mod Fs
pub mod Inode
