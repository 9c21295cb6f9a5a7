-- ===== src/Proc/Wakeup.antt =====
-- `wakeup` of kernel/proc.c, entry by entry.
use paddle_os.Prelude.{ltb, leb, ◌==◌, if◌then◌else◌, put, ℕ, zero, suc, ◌+◌, ◌≡◌, not, ◌&&◌, arith}
use paddle_os.Proc.{Proc, nproc, runnable, is_sleeping, wake, wakeup_from, wakeup}

wakeup_from_lem :
    (left i me chan : ℕ) (ps : ℕ → Proc) (j : ℕ)
    → wakeup_from left i me chan ps j
      ≡ (if (leb i j && ltb j (i + left)) && not (j == me) then wake chan (ps j) else ps j)
unfolding wakeup_from
wakeup_from_lem zero i me chan ps j = ground arith
wakeup_from_lem (suc left) i me chan ps j = ground (
  arith,
  wakeup_from_lem left (suc i) me chan (if i == me then ps else put ps i (wake chan (ps i))) j,
)

pub wakeup-wake :
    (me chan : ℕ) (ps : ℕ → Proc) (j : ℕ)
    → wakeup me chan ps j ≡ (if ltb j nproc && not (j == me) then wake chan (ps j) else ps j)
unfolding wakeup
wakeup-wake me chan ps j = ground (arith, wakeup_from_lem nproc 0 me chan ps j)

-- `wakeup` makes runnable exactly the other processes of the table that sleep on the channel, and
-- leaves every other entry alone.
pub wakeup_lem :
    (me chan : ℕ) (ps : ℕ → Proc) (j : ℕ)
    → wakeup me chan ps j ≡ (
        if (ltb j nproc && not (j == me)) && (is_sleeping (ps j).state && (ps j).chan == chan)
        then record (ps j) { state = runnable }
        else ps j)
unfolding wake
wakeup_lem me chan ps j = ground (arith, wakeup-wake me chan ps j)
