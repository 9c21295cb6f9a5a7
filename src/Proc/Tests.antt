-- ===== src/Proc/Tests.antt =====
-- The process table of kernel/proc.c at a concrete table: init, a parent in `wait`, its child.
use paddle_os.Prelude.{◌==◌, if◌then◌else◌, ℕ, ◌+◌, ◌≡◌, refl, Bool, true, false, none, some, arith}
use paddle_os.Proc.{
  Proc, Table, nproc, unused, sleeping, running, kill, find_unused, allocproc, exit, wait,
}
use paddle_os.Proc.Invariant.{IsTable}
use paddle_os.Proc.Alloc.{Allocated, allocproc_lem}
use paddle_os.Proc.Exit.{Exited, Finds, exit-wait}
use paddle_os.Proc.KillZero.{kill-allocproc}

abbrev idle : Proc
idle = record {
  state = unused;
  chan = 0;
  killed = false;
  xstate = 0;
  pid = 0;
  parent = none;
  sz = 0;
  pagetable = 0;
  trapframe = 0;
}

abbrev chan_of : ℕ → ℕ
chan_of i = 4096 + i

-- Process 0 is init, 1 its child in `wait`, 2 the child of 1.
abbrev family : ℕ → Proc
family i =
    if i == 0
    then record idle { state = sleeping; chan = chan_of 0; pid = 1 }
    else if i == 1
    then record idle { state = sleeping; chan = chan_of 1; pid = 2; parent = some 0 }
    else if i == 2
    then record idle { state = running; pid = 3; parent = some 1 }
    else idle

abbrev table : Table
table = record { procs = family; nextpid = 4 }

table-IsTable : IsTable table
table-IsTable = record {
  free_pid = λ i e. ground (arith, e);
  live_pid = λ i e. ground (arith, e);
  pids_differ = λ i j a b e. ground (arith, a, b, e);
  next_pid = omega arith;
}

abbrev copies : ℕ → Bool
copies i = true

allocproc_lem_example :
    Allocated 8192 12288 table (allocproc 8192 12288 table) × IsTable (allocproc 8192 12288 table).1
allocproc_lem_example = allocproc_lem 8192 12288 table table-IsTable (omega arith)

exit-wait_example :
    (ps' : ℕ → Proc) × (exit chan_of 0 2 7 family ≡ some ps')
    × Exited chan_of 0 2 1 7 family ps'
    × Finds copies 2 1 ps' (wait copies 1 ps')
exit-wait_example =
    exit-wait chan_of copies 0 2 1 7 family (λ e. omega (arith, e)) (λ e. omega (arith, e))
      (omega arith) (omega arith) refl

find_unused-family : find_unused nproc 0 family ≡ some 3
unfolding find_unused
find_unused-family = refl

kill-allocproc_example :
    ((kill 0 family).0 ≡ true)
    × ((allocproc 8192 12288 (record table { procs = (kill 0 family).1 })).0 ≡ some 3)
    × (((allocproc 8192 12288 (record table { procs = (kill 0 family).1 })).1.procs 3).killed
        ≡ true)
kill-allocproc_example =
    kill-allocproc table 8192 12288 3 table-IsTable find_unused-family (omega arith) (omega arith)
