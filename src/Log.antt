-- ===== src/Log.antt =====
-- kernel/log.c: the write-ahead log that makes file system calls atomic across crashes.
-- A block is its 256 32-bit words. `disk` is what the disk holds, and `cache` what `bread` returns:
-- the modified copy of a pinned block, else what the disk holds. A write of one block is atomic, as
-- the log's design takes it to be. `writes_left` is how many more the machine makes before its
-- power fails: a theorem for every value of it is one about a crash at any moment.
-- `lh` holds `log.lh.block[0]` to `log.lh.block[log.lh.n - 1]`, so its length is `log.lh.n`. There is
-- one device, and `log.dev` is left out. `bread` always finds a buffer here: that `bget` panics where
-- every buffer is held or pinned is in Bio. `acquire` and `release` of `log.lock` bracket each section
-- that is one step here; `sleep` is the answer `none` of `begin_op_try`.
pub mod Header
pub mod Steps
pub mod Writes
pub mod Recovery
pub mod Atomic
pub mod Ends
pub mod Space
mod Tests
use paddle_os.Prelude.{
  ltb, leb, ◌==◌, if◌then◌else◌, put, length, ℕ, zero, suc, ◌+◌, ◌-◌, ◌*◌, ◌%◌, ◌^◌, Bool, true,
  false, ◌&&◌, ◌||◌, Option, none, some, List, [], ◌∷◌, ◌++◌,
}

abbrev pub Block : Type 0
Block = ℕ → ℕ

abbrev pub Disk : Type 0
Disk = ℕ → Block

-- `MAXOPBLOCKS` and `LOGSIZE`
abbrev pub max_op_blocks : ℕ
max_op_blocks = 10

abbrev pub log_size : ℕ
log_size = max_op_blocks * 3

pub record Log : Type 0 where
  pub disk : Disk
  pub cache : Disk
  pub pins : ℕ → ℕ
  pub start : ℕ
  pub size : ℕ
  pub outstanding : ℕ  -- int
  pub committing : Bool
  pub lh : List ℕ
  pub wakeups : ℕ
  pub writes_left : ℕ

-- `crashed`: the power failed, and only the disk is left.
pub data Run : Type 0 where
  ok : Log → Run
  crashed : Disk → Run
  panic : Run

infixl 5 ◌>>=◌
abbrev pub ◌>>=◌ : Run → (Log → Run) → Run
ok s >>= f = f s
crashed d >>= f = crashed d
panic >>= f = panic

-- `bwrite` of a buffer that holds the block `b`
unfoldable pub bwrite : ℕ → Log → Run
bwrite b s =
    if s.writes_left == 0
    then crashed s.disk
    else ok (record s { disk = put s.disk b (s.cache b); writes_left = s.writes_left - 1 })

-- the `n` words from word `i` on
unfoldable pub read_words : (n i : ℕ) → Block → List ℕ
read_words zero i w = []
read_words (suc n) i w = w i ∷ read_words n (i + 1) w

unfoldable pub write_words : List ℕ → ℕ → Block → Block
write_words [] i w = w
write_words (x ∷ xs) i w = write_words xs (i + 1) (put w i x)

-- `if (recovering == 0) bunpin(dbuf);`
unfoldable pub unpin : Bool → ℕ → Log → Log
unpin recovering b s = if recovering then s else record s { pins = put s.pins b (s.pins b - 1) }

-- `for (tail = 0; tail < log.lh.n; tail++)`, from the entry of `slot = log.start + tail + 1` on
pub install_from : Bool → (slot : ℕ) → List ℕ → Log → Run
install_from recovering slot [] s = ok s
install_from recovering slot (b ∷ bs) s =
    bwrite b (record s { cache = put s.cache b (s.cache slot) }) >>= λ s'.
    install_from recovering (slot + 1) bs (unpin recovering b s')

unfoldable pub install_trans : Bool → Log → Run
install_trans recovering s = install_from recovering (s.start + 1) s.lh s

-- `log.lh.n` is an `int`: the loop makes no round for a word that is negative as one.
unfoldable pub read_head : Log → Log
read_head s =
    let n = s.cache s.start 0 in
    record s { lh = read_words (if ltb n (2 ^ 31) then n else 0) 1 (s.cache s.start) }

unfoldable pub write_head : Log → Run
write_head s =
    let hb = write_words s.lh 1 (put (s.cache s.start) 0 (length s.lh)) in
    bwrite s.start (record s { cache = put s.cache s.start hb })

unfoldable pub recover_from_log : Log → Run
recover_from_log s = install_trans true (read_head s) >>= λ s'. write_head (record s' { lh = [] })

-- The check of the header's size, 124 bytes against 1024, always passes.
unfoldable pub initlog : (logstart nlog : ℕ) → Log → Run
initlog logstart nlog s = recover_from_log (record s { start = logstart; size = nlog })

pub write_log_from : (slot : ℕ) → List ℕ → Log → Run
write_log_from slot [] s = ok s
write_log_from slot (b ∷ bs) s =
    bwrite slot (record s { cache = put s.cache slot (s.cache b) }) >>= write_log_from (slot + 1) bs

unfoldable pub write_log : Log → Run
write_log s = write_log_from (s.start + 1) s.lh s

unfoldable pub commit : Log → Run
commit s =
    let done = write_log s >>= write_head >>= install_trans false >>= λ s'.
    write_head (record s' { lh = [] }) in
    if ltb 0 (length s.lh) then done else ok s

-- One round of the loop of `begin_op`: `none` if it sleeps, to try again when it is woken. The test
-- is on 32-bit signed numbers.
unfoldable pub begin_op_try : Log → Option Log
begin_op_try s =
    let need = (length s.lh + (s.outstanding + 1) % 2 ^ 32 * max_op_blocks) % 2 ^ 32 in
    if s.committing
    then none
    else if ltb log_size need && ltb need (2 ^ 31)
    then none
    else some (record s { outstanding = (s.outstanding + 1) % 2 ^ 32 })

unfoldable pub end_op : Log → Run
end_op s =
    let left = (s.outstanding + 2 ^ 32 - 1) % 2 ^ 32 in
    let last = commit (record s { outstanding = left; committing = true }) >>= λ s'.
    ok (record s' { committing = false; wakeups = s'.wakeups + 1 }) in
    if s.committing
    then panic
    else if left == 0
    then last
    else ok (record s { outstanding = left; wakeups = s.wakeups + 1 })

abbrev pub elem : ℕ → List ℕ → Bool
elem b [] = false
elem b (x ∷ xs) = (x == b) || elem b xs

-- `log_write` of a buffer that holds the block `b`. An entry that is there is used again.
unfoldable pub log_write : ℕ → Log → Run
log_write b s =
    if leb log_size (length s.lh) || leb s.size (length s.lh + 1)
    then panic
    else if s.outstanding == 0 || leb (2 ^ 31) s.outstanding
    then panic
    else if elem b s.lh
    then ok s
    else ok (record s { lh = s.lh ++ b ∷ []; pins = put s.pins b (s.pins b + 1) })

-- What is in memory after a reboot: the cache is empty, so it reads as the disk does.
unfoldable pub reboot : (writes : ℕ) → Disk → Log
reboot writes d = record {
  disk = d;
  cache = d;
  pins = λ b. 0;
  start = 0;
  size = 0;
  outstanding = 0;
  committing = false;
  lh = [];
  wakeups = 0;
  writes_left = writes;
}
