-- ===== src/Log/Tests.antt =====
-- Runs of kernel/log.c: a log at block 2, and a transaction that changes blocks 50 and 60.
use paddle_os.Prelude.{
  put, length, ℕ, ◌+◌, ◌≤◌, ◌≡◌, refl, ◌⊎◌, inr, false, Option, none, some, List, [], ◌∷◌, arith,
}
use paddle_os.Log.{
  Block, Disk, Log, Run, ok, crashed, panic, log_write, commit, initlog, reboot, bwrite, unpin,
  install_from, install_trans, write_words, read_words, write_head, write_log_from, write_log,
}
use paddle_os.Log.Header.{entries}
use paddle_os.Log.Steps.{Ensures}
use paddle_os.Log.Recovery.{Fits, in_log, Recovered, SameContent, initlog_lem}
use paddle_os.Log.Atomic.{committed, Ready, Committed, Atomic, commit-Atomic, crash_atomic}
use paddle_os.Log.Ends.{initlog_ends}
use paddle_os.Log.Space.{HasSpace, LogWrite, reserved, log_write-HasSpace}

abbrev blank : Disk
blank b i = 0

abbrev filled : ℕ → Block
filled v i = v

abbrev before : (writes : ℕ) → List ℕ → Log
before writes lh = record {
  disk = blank;
  cache = put (put blank 50 (filled 7)) 60 (filled 8);
  pins = λ b. 0;
  start = 2;
  size = 30;
  outstanding = 0;
  committing = false;
  lh = lh;
  wakeups = 0;
  writes_left = writes;
}

abbrev changed : List ℕ
changed = 50 ∷ 60 ∷ []

changed-Fits : Fits 2 30 changed
changed-Fits = record {
  outside = (inr (omega arith), (inr (omega arith), tt));
  few = omega arith;
  listed = omega arith;
}

before-Ready : (writes : ℕ) → Ready (before writes changed)
unfolding entries read_words
before-Ready writes = record { empty = refl; fits = changed-Fits }

abbrev block_after : (b : ℕ) → Run → Option ℕ
block_after b (ok s) = some (s.disk b 0)
block_after b (crashed d) = some (d b 0)
block_after b _ = none

-- Three writes, then a crash: the transaction has its header, and its blocks are not home.
commit_runs :
    (block_after 50 (commit (before 10 changed)) ≡ some 7)
    × (block_after 50 (commit (before 3 changed)) ≡ some 0)
unfolding commit write_log write_log_from write_head install_trans install_from bwrite unpin
    write_words
commit_runs = (refl, refl)

commit-Atomic_example :
    Ensures (Committed (before 3 changed)) (Atomic (before 3 changed)) (commit (before 3 changed))
commit-Atomic_example = commit-Atomic (before 3 changed) (before-Ready 3)

abbrev cut : (d : Disk) × (commit (before 3 changed) ≡ crashed d)
unfolding commit write_log write_log_from write_head install_trans install_from bwrite unpin
    write_words
cut = (_, refl)

cut-entries : length (entries (cut.0 2)) + 1 ≤ 9
unfolding entries read_words cut
cut-entries = omega arith

abbrev again : (s' : Log) × (initlog 2 30 (reboot 9 cut.0) ≡ ok s')
again = initlog_ends 2 30 9 cut.0 cut-entries

crash_atomic_example :
    ((b : ℕ) → in_log 2 30 b ≡ false → again.0.disk b ≡ (before 3 changed).disk b)
    ⊎ ((b : ℕ) → in_log 2 30 b ≡ false → again.0.disk b ≡ committed (before 3 changed) b)
crash_atomic_example =
    crash_atomic (before 3 changed) cut.0 9 again.0 (before-Ready 3) cut.1 again.1

cut-Fits : Fits 2 30 (entries (cut.0 2))
unfolding entries read_words cut
cut-Fits = changed-Fits

-- the recovery of that disk, with the blocks 50 and 60 in its log
initlog_lem_example :
    Ensures (Recovered 2 cut.0) (SameContent 2 cut.0) (initlog 2 30 (reboot 2 cut.0))
initlog_lem_example = initlog_lem 2 30 2 cut.0 cut-Fits

-- one operation open, with two blocks left
abbrev open_one : Log
open_one = record (before 6 changed) { outstanding = 1 }

open_one-HasSpace : HasSpace open_one (2 ∷ [])
unfolding reserved
open_one-HasSpace = record {
  open_ops = refl;
  budget = (omega arith, tt);
  few = omega arith;
  room = omega arith;
  idle = refl;
}

log_write-HasSpace_example : LogWrite 70 open_one (1 ∷ []) (log_write 70 open_one)
log_write-HasSpace_example = log_write-HasSpace open_one 70 [] [] 1 open_one-HasSpace

-- The log of `mkfs` has 30 blocks. Three operations may log ten blocks each, and the thirtieth
-- panics.
abbrev twenty_nine : List ℕ
twenty_nine =
    50 ∷ 51 ∷ 52 ∷ 53 ∷ 54 ∷ 55 ∷ 56 ∷ 57 ∷ 58 ∷ 59 ∷ 60 ∷ 61 ∷ 62 ∷ 63 ∷ 64 ∷ 65 ∷ 66 ∷ 67 ∷ 68
    ∷ 69 ∷ 70 ∷ 71 ∷ 72 ∷ 73 ∷ 74 ∷ 75 ∷ 76 ∷ 77 ∷ 78 ∷ []

abbrev open_three : Log
open_three = record (before 6 twenty_nine) { outstanding = 3 }

open_three-HasSpace : HasSpace open_three (1 ∷ 0 ∷ 0 ∷ [])
unfolding reserved
open_three-HasSpace = record {
  open_ops = refl;
  budget = (omega arith, (omega arith, (omega arith, tt)));
  few = omega arith;
  room = omega arith;
  idle = refl;
}

thirtieth_block : log_write 79 open_three ≡ panic
unfolding log_write
thirtieth_block = refl
