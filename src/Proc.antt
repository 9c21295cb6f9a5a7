-- ===== src/Proc.antt =====
-- kernel/proc.c: the process table. A pointer to a process is its index in the table, and an entry
-- at 64 or above is no process. The model runs each function as one step: the loops take `p->lock`
-- entry by entry in the source, and `wait` and `exit` hold `wait_lock` across theirs.
-- `chan` and the two pointers to pages are 0 where the source's are null. `swtch`, the files, the
-- working directory, the kernel stacks and the registers are not part of an entry.
pub mod Invariant
pub mod Alloc
pub mod Wakeup
pub mod Kill
pub mod Wait
pub mod Exit
pub mod Keeps
pub mod KillZero
mod Tests
use paddle_os.Prelude.{
  ◌==◌, if◌then◌else◌, put, ℕ, zero, suc, ◌+◌, ◌%◌, ◌^◌, Bool, true, false, not, ◌&&◌, ◌||◌, Option,
  none, some,
}

-- `NPROC`
abbrev pub nproc : ℕ
nproc = 64

pub data ProcState : Type 0 where
  unused : ProcState
  used : ProcState
  sleeping : ProcState
  runnable : ProcState
  running : ProcState
  zombie : ProcState

pub record Proc : Type 0 where
  pub state : ProcState
  pub chan : ℕ
  pub killed : Bool
  pub xstate : ℕ
  pub pid : ℕ
  pub parent : Option ℕ
  pub sz : ℕ
  pub pagetable : ℕ
  pub trapframe : ℕ

-- the table and `nextpid`
pub record Table : Type 0 where
  pub procs : ℕ → Proc
  pub nextpid : ℕ

abbrev pub is_unused : ProcState → Bool
is_unused unused = true
is_unused used = false
is_unused sleeping = false
is_unused runnable = false
is_unused running = false
is_unused zombie = false

abbrev pub is_sleeping : ProcState → Bool
is_sleeping unused = false
is_sleeping used = false
is_sleeping sleeping = true
is_sleeping runnable = false
is_sleeping running = false
is_sleeping zombie = false

abbrev pub is_zombie : ProcState → Bool
is_zombie unused = false
is_zombie used = false
is_zombie sleeping = false
is_zombie runnable = false
is_zombie running = false
is_zombie zombie = true

abbrev pub is_runnable : ProcState → Bool
is_runnable unused = false
is_runnable used = false
is_runnable sleeping = false
is_runnable runnable = true
is_runnable running = false
is_runnable zombie = false

abbrev pub is_child : ℕ → Option ℕ → Bool
is_child p none = false
is_child p (some q) = q == p

-- What `freeproc` leaves of an entry. The pages go back to their owners: the trapframe to `kfree`,
-- the page table to `proc_freepagetable`.
unfoldable pub freeproc : Proc → Proc
freeproc p = record {
  state = unused;
  chan = 0;
  killed = false;
  xstate = 0;
  pid = 0;
  parent = none;
  sz = 0;
  pagetable = 0;
  trapframe = 0;
}

-- the first unused entry of the `left` ones from `i` on
unfoldable pub find_unused : (left i : ℕ) → (ℕ → Proc) → Option ℕ
find_unused zero i ps = none
find_unused (suc left) i ps =
    let rest = find_unused left (suc i) ps in if is_unused (ps i).state then some i else rest

-- `p->pid = allocpid(); p->state = USED;` and the two pages, which the arguments are: a page that
-- is not there is 0, and gives the entry back. `pid` is an `int`.
unfoldable pub allocproc_found : (trapframe pagetable i : ℕ) → Table → Option ℕ × Table
allocproc_found trapframe pagetable i t =
    let p = record (t.procs i) { pid = t.nextpid; state = used } in
    let next = (t.nextpid + 1) % 2 ^ 32 in
    if trapframe == 0 || pagetable == 0
    then (none, record { procs = put t.procs i (freeproc p); nextpid = next })
    else (
      some i,
      record {
        procs = put t.procs i (record p { trapframe = trapframe; pagetable = pagetable });
        nextpid = next;
      },
    )

unfoldable pub allocproc : (trapframe pagetable : ℕ) → Table → Option ℕ × Table
allocproc trapframe pagetable t = elim (find_unused nproc 0 t.procs) [
  | none ↦ (none, t)
  | some i ↦ allocproc_found trapframe pagetable i t
]

unfoldable pub wake : (chan : ℕ) → Proc → Proc
wake chan p = if is_sleeping p.state && p.chan == chan then record p { state = runnable } else p

unfoldable pub wakeup_from : (left i me chan : ℕ) → (ℕ → Proc) → ℕ → Proc
wakeup_from zero i me chan ps = ps
wakeup_from (suc left) i me chan ps =
    wakeup_from left (suc i) me chan (if i == me then ps else put ps i (wake chan (ps i)))

-- by the process `me`
unfoldable pub wakeup : (me chan : ℕ) → (ℕ → Proc) → ℕ → Proc
wakeup me chan ps = wakeup_from nproc 0 me chan ps

unfoldable pub setkilled : Proc → Proc
setkilled p = record p { killed = true }

-- The state of a killed process that sleeps becomes RUNNABLE.
unfoldable pub kill_entry : Proc → Proc
kill_entry p =
    let p' = setkilled p in if is_sleeping p.state then record p' { state = runnable } else p'

-- `true` is the source's 0, and `false` its -1.
unfoldable pub kill_from : (left i pid : ℕ) → (ℕ → Proc) → Bool × (ℕ → Proc)
kill_from zero i pid ps = (false, ps)
kill_from (suc left) i pid ps =
    let rest = kill_from left (suc i) pid ps in
    if (ps i).pid == pid then (true, put ps i (kill_entry (ps i))) else rest

unfoldable pub kill : (pid : ℕ) → (ℕ → Proc) → Bool × (ℕ → Proc)
kill pid ps = kill_from nproc 0 pid ps

-- `chan_of` is the address of an entry, on which its process sleeps in `wait`.
unfoldable pub reparent_from : (chan_of : ℕ → ℕ) (left i me init : ℕ) → (ℕ → Proc) → ℕ → Proc
reparent_from chan_of zero i me init ps = ps
reparent_from chan_of (suc left) i me init ps = reparent_from chan_of left (suc i) me init (
    if is_child me (ps i).parent
    then wakeup me (chan_of init) (put ps i (record (ps i) { parent = some init }))
    else ps)

unfoldable pub reparent : (chan_of : ℕ → ℕ) (me init : ℕ) → (ℕ → Proc) → ℕ → Proc
reparent chan_of me init ps = reparent_from chan_of nproc 0 me init ps

abbrev pub parent_chan : (ℕ → ℕ) → Option ℕ → ℕ
parent_chan chan_of none = 0
parent_chan chan_of (some p) = chan_of p

-- `exit` of the process `me` up to `sched`; `none` is the panic of init. The closing of the files and
-- of the working directory, before `acquire(&wait_lock)`, touches no field of the model.
unfoldable pub exit : (chan_of : ℕ → ℕ) (init me status : ℕ) → (ℕ → Proc) → Option (ℕ → Proc)
exit chan_of init me status ps =
    if me == init
    then none
    else let ps1 = reparent chan_of me init ps in
      let ps2 = wakeup me (parent_chan chan_of (ps1 me).parent) ps1 in
      some (put ps2 me (record (ps2 me) { xstate = status; state = zombie }))

-- `reaped`: the pid that `wait` returns; `failed`: -1; `waits`: it sleeps.
pub data Waited : Type 0 where
  reaped : ℕ → Waited
  failed : Waited
  waits : Waited

-- One pass over the table. `copied i` says that the status of the child `i` can be copied out.
unfoldable pub wait_from :
    (copied : ℕ → Bool) (left i me : ℕ) (havekids : Bool) → (ℕ → Proc) → Waited × (ℕ → Proc)
wait_from copied zero i me havekids ps =
    (if not havekids || (ps me).killed then failed else waits, ps)
wait_from copied (suc left) i me havekids ps =
    let child = is_child me (ps i).parent in
    let rest = wait_from copied left (suc i) me (havekids || child) ps in
    if child && is_zombie (ps i).state
    then (if copied i then (reaped (ps i).pid, put ps i (freeproc (ps i))) else (failed, ps))
    else rest

-- a round of `wait`
unfoldable pub wait : (copied : ℕ → Bool) (me : ℕ) → (ℕ → Proc) → Waited × (ℕ → Proc)
wait copied me ps = wait_from copied nproc 0 me false ps
