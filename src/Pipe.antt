-- ===== src/Pipe.antt =====
-- kernel/pipe.c: `pipewrite`, `piperead` and `pipeclose`.
-- A call runs under `pi->lock` from `acquire` or from its return from `sleep` up to the next
-- `sleep` or `release`, and one such run is one function here: `asleep i` is a call that sleeps
-- with `i` bytes done, and its next run starts from that `i`. `killed i` is what `killed(pr)`
-- answers when `i` bytes are done. The `copyin` and `copyout` of one byte of the process's memory
-- are arguments: the byte read, and whether the byte was written. `n` is the count of bytes where it
-- is not negative; for a negative `n` no loop makes a round, as for 0.
pub mod Fifo
pub mod Write
pub mod Read
pub mod Close
mod Tests
use paddle_os.Prelude.{
  ◌==◌, if◌then◌else◌, set, get_or, ℕ, zero, suc, ◌+◌, ◌-◌, ◌%◌, ◌^◌, Bool, true, false, not, ◌&&◌,
  ◌||◌, Option, none, some, List, [], ◌∷◌,
}
use paddle_os.Ring.{slots}

abbrev pub pipe_size : ℕ
pipe_size = 512

-- `readopen` and `writeopen` are 0 or 1 in the source.
pub record Pipe : Type 0 where
  pub bytes : List ℕ
  pub nread : ℕ  -- uint
  pub nwrite : ℕ  -- uint
  pub readopen : Bool
  pub writeopen : Bool

pub data Channel : Type 0 where
  chan_nread : Channel
  chan_nwrite : Channel

-- `refused`: -1
pub data Stop : Type 0 where
  returned : ℕ → Stop
  refused : Stop
  asleep : ℕ → Stop

-- One run of a call: how it stopped, the pipe it left, the channels it woke, and the bytes it
-- handed to `copyout`, in order, where that succeeded.
pub record Run : Type 0 where
  pub stop : Stop
  pub pipe : Pipe
  pub woken : List Channel
  pub delivered : List ℕ

unfoldable pub pipealloc_init : (page : List ℕ) → Pipe
pipealloc_init page = record {
  bytes = page;
  nread = 0;
  nwrite = 0;
  readopen = true;
  writeopen = true;
}

unfoldable pub full : Pipe → Bool
full p = p.nwrite == (p.nread + pipe_size) % 2 ^ 32

unfoldable pub empty : Pipe → Bool
empty p = p.nread == p.nwrite

-- `pi->data[pi->nwrite++ % PIPESIZE] = ch;`
unfoldable pub put_byte : ℕ → Pipe → Pipe
put_byte ch p = record p {
  bytes = set p.bytes (p.nwrite % pipe_size) ch;
  nwrite = (p.nwrite + 1) % 2 ^ 32;
}

-- `ch = pi->data[pi->nread++ % PIPESIZE];`
unfoldable pub next_byte : Pipe → ℕ
next_byte p = get_or p.bytes (p.nread % pipe_size) 0

unfoldable pub drop_byte : Pipe → Pipe
drop_byte p = record p { nread = (p.nread + 1) % 2 ^ 32 }

-- the loop of `pipewrite`, with `i` bytes done and `left` to go
unfoldable pub write_from :
    (copyin : ℕ → Option ℕ) (killed : ℕ → Bool) (addr i left : ℕ) → Pipe → Run
write_from copyin killed addr i zero p = record {
  stop = returned i;
  pipe = p;
  woken = chan_nread ∷ [];
  delivered = [];
}
write_from copyin killed addr i (suc left) p =
    if not p.readopen || killed i
    then record { stop = refused; pipe = p; woken = []; delivered = [] }
    else if full p
    then record { stop = asleep i; pipe = p; woken = chan_nread ∷ []; delivered = [] }
    else elim (copyin (addr + i)) [
      | none ↦ record { stop = returned i; pipe = p; woken = chan_nread ∷ []; delivered = [] }
      | some ch ↦ write_from copyin killed addr (suc i) left (put_byte ch p)
    ]

-- a run of `pipewrite` that starts with `i` bytes done
unfoldable pub pipewrite : (copyin : ℕ → Option ℕ) (killed : ℕ → Bool) (addr n i : ℕ) → Pipe → Run
pipewrite copyin killed addr n i p = write_from copyin killed addr i (n - i) p

-- the `for` loop of `piperead`
unfoldable pub read_from : (copyout : ℕ → ℕ → Bool) (addr i left : ℕ) → Pipe → Run
read_from copyout addr i zero p = record {
  stop = returned i;
  pipe = p;
  woken = chan_nwrite ∷ [];
  delivered = [];
}
read_from copyout addr i (suc left) p =
    if empty p
    then record { stop = returned i; pipe = p; woken = chan_nwrite ∷ []; delivered = [] }
    else let rest = read_from copyout addr (suc i) left (drop_byte p) in
      if copyout (addr + i) (next_byte p)
      then record rest { delivered = next_byte p ∷ rest.delivered }
      else record {
        stop = returned i;
        pipe = drop_byte p;
        woken = chan_nwrite ∷ [];
        delivered = [];
      }

-- a run of `piperead`, which has read nothing where it slept
unfoldable pub piperead : (copyout : ℕ → ℕ → Bool) (killed : Bool) (addr n : ℕ) → Pipe → Run
piperead copyout killed addr n p =
    if empty p && p.writeopen
    then (if killed
        then record { stop = refused; pipe = p; woken = []; delivered = [] }
        else record { stop = asleep 0; pipe = p; woken = []; delivered = [] })
    else read_from copyout addr 0 n p

-- The last answer says that the pipe's page is freed.
unfoldable pub pipeclose : (writable : Bool) → Pipe → Pipe × List Channel × Bool
pipeclose writable p =
    let p' = if writable then record p { writeopen = false } else record p { readopen = false } in
    (
      p',
      (if writable then chan_nread ∷ [] else chan_nwrite ∷ []),
      not p'.readopen && not p'.writeopen,
    )
