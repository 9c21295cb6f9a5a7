-- ===== src/Log/Ends.antt =====
-- How many disk writes the transfers of kernel/log.c make.
use paddle_os.Prelude.{
  ltb, Bool-cases, put, length, ℕ, ◌+◌, ◌-◌, ◌*◌, ◌≤◌, ◌<◌, ◌≡◌, refl, ap, inl, inr, Bool, true,
  false, List, [], ◌∷◌, arith,
}
use mathlib.Core.Path.{subst}
use paddle_os.Log.{
  Disk, Log, Run, ok, ◌>>=◌, bwrite, unpin, install_from, install_trans, write_head, write_log_from,
  write_log, commit, recover_from_log, read_head, initlog, reboot, write_words,
}
use paddle_os.Log.Header.{entries}

-- The run, with `k` writes left at its start, ends after `n` of them, in a state with this `start`
-- and `lh`.
record Ends (n k start : ℕ) (lh : List ℕ) (r : Run) : Type 0 where
  last : Log
  done : r ≡ ok last
  used : last.writes_left + n ≡ k
  same_start : last.start ≡ start
  same_lh : last.lh ≡ lh

module _ {n m k start start' : ℕ} {lh lh' : List ℕ} where
  Ends-bind :
      (r : Run) (f : Log → Run)
      → Ends n k start lh r
      → ((s : Log)
          → s.writes_left + n ≡ k
          → s.start ≡ start
          → s.lh ≡ lh
          → Ends m s.writes_left start' lh' (f s))
      → Ends (n + m) k start' lh' (r >>= f)
  Ends-bind r f e next =
      let e' : Ends m e.last.writes_left start' lh' (f e.last) =
        next e.last e.used e.same_start e.same_lh in
      record {
        last = e'.last;
        done = rw e.done e'.done;
        used = omega (arith, e.used, e'.used);
        same_start = e'.same_start;
        same_lh = e'.same_lh;
      }

bwrite-Ends : (b : ℕ) (s : Log) → 0 < s.writes_left → Ends 1 s.writes_left s.start s.lh (bwrite b s)
unfolding bwrite
bwrite-Ends b s h = record {
  last = record s { disk = put s.disk b (s.cache b); writes_left = s.writes_left - 1 };
  done = ground arith;
  used = omega arith;
  same_start = refl;
  same_lh = refl;
}

-- `unpin` changes nothing that counts here.
unpin-Ends :
    (r c : Bool) (b slot : ℕ) (bs : List ℕ) (s : Log)
    → ((s' : Log)
        → length bs ≤ s'.writes_left
        → Ends (length bs) s'.writes_left s'.start s'.lh (install_from r slot bs s'))
    → length bs ≤ s.writes_left
    → Ends (length bs) s.writes_left s.start s.lh (install_from r slot bs (unpin c b s))
unfolding unpin
unpin-Ends r true b slot bs s ih l = ih s l
unpin-Ends r false b slot bs s ih l = ih (record s { pins = put s.pins b (s.pins b - 1) }) l

install_from-Ends :
    (r : Bool) (bs : List ℕ) (slot : ℕ) (s : Log)
    → length bs ≤ s.writes_left
    → Ends (length bs) s.writes_left s.start s.lh (install_from r slot bs s)
unfolding install_from unpin
install_from-Ends r [] slot s h = record {
  last = s;
  done = refl;
  used = omega arith;
  same_start = refl;
  same_lh = refl;
}
install_from-Ends r (b ∷ bs) slot s h =
    subst (λ n. Ends n s.writes_left s.start s.lh (install_from r slot (b ∷ bs) s)) (omega arith)
      (Ends-bind {m = length bs} (bwrite b s0) (λ s'. install_from r (slot + 1) bs (unpin r b s'))
        (bwrite-Ends b s0 (omega arith))
        (λ s1 used e f.
          rw (← e, ← f)
            (unpin-Ends r r b (slot + 1) bs s1 (install_from-Ends r bs (slot + 1)) (omega arith))))
  where
    s0 : Log
    s0 = record s { cache = put s.cache b (s.cache slot) }

write_log_from-Ends :
    (bs : List ℕ) (slot : ℕ) (s : Log)
    → length bs ≤ s.writes_left
    → Ends (length bs) s.writes_left s.start s.lh (write_log_from slot bs s)
unfolding write_log_from
write_log_from-Ends [] slot s h = record {
  last = s;
  done = refl;
  used = omega arith;
  same_start = refl;
  same_lh = refl;
}
write_log_from-Ends (b ∷ bs) slot s h =
    subst (λ n. Ends n s.writes_left s.start s.lh (write_log_from slot (b ∷ bs) s)) (omega arith)
      (Ends-bind {m = length bs} (bwrite slot s0) (write_log_from (slot + 1) bs)
        (bwrite-Ends slot s0 (omega arith))
        (λ s1 used e f. rw (← e, ← f) (write_log_from-Ends bs (slot + 1) s1 (omega arith))))
  where
    s0 : Log
    s0 = record s { cache = put s.cache slot (s.cache b) }

write_head-Ends : (s : Log) → 0 < s.writes_left → Ends 1 s.writes_left s.start s.lh (write_head s)
unfolding write_head
write_head-Ends s h =
    bwrite-Ends s.start
      (record s {
        cache = put s.cache s.start (write_words s.lh 1 (put (s.cache s.start) 0 (length s.lh)));
      })
      h

install_trans-Ends :
    (r : Bool) (s : Log)
    → length s.lh ≤ s.writes_left
    → Ends (length s.lh) s.writes_left s.start s.lh (install_trans r s)
unfolding install_trans
install_trans-Ends r s h = install_from-Ends r s.lh (s.start + 1) s h

write_log-Ends :
    (s : Log)
    → length s.lh ≤ s.writes_left
    → Ends (length s.lh) s.writes_left s.start s.lh (write_log s)
unfolding write_log
write_log-Ends s h = write_log_from-Ends s.lh (s.start + 1) s h

-- `commit` ends if the power lasts for two writes for each logged block and two of the header.
pub commit_ends : (s : Log) → 2 * length s.lh + 2 ≤ s.writes_left → (s' : Log) × (commit s ≡ ok s')
unfolding commit
commit_ends s h = elim (Bool-cases (ltb 0 (length s.lh))) [
  | inl more ↦ rw more (transaction.last, transaction.done)
  | inr none' ↦ (s, rw none')
]
  where
    headed : Ends (length s.lh + 1) s.writes_left s.start s.lh (write_log s >>= write_head)
    headed =
        Ends-bind {m = 1} (write_log s) write_head (write_log-Ends s (omega arith))
          (λ s1 u e f. rw (← e, ← f) (write_head-Ends s1 (omega arith)))

    installed :
        Ends
          (length s.lh + 1 + length s.lh)
          s.writes_left
          s.start
          s.lh
          (write_log s >>= write_head >>= install_trans false)
    installed =
        Ends-bind {m = length s.lh} (write_log s >>= write_head) (install_trans false) headed
          (λ s2 u e f.
            rw (← e, ← f)
              (install_trans-Ends false s2 (omega (arith, ap (λ (l : List ℕ). length l) f))))

    transaction : Ends (length s.lh + 1 + length s.lh + 1) s.writes_left s.start [] (
        write_log s >>= write_head >>= install_trans false >>= λ s'.
        write_head (record s' { lh = [] }))
    transaction =
        Ends-bind {m = 1} (write_log s >>= write_head >>= install_trans false)
          (λ s'. write_head (record s' { lh = [] })) installed
          (λ s3 u e f. rw (← e) (write_head-Ends (record s3 { lh = [] }) (omega arith)))

-- The recovery ends if the power lasts for a write for each listed block and one of the header.
pub initlog_ends :
    (start size writes : ℕ) (d : Disk)
    → length (entries (d start)) + 1 ≤ writes
    → (s' : Log) × (initlog start size (reboot writes d) ≡ ok s')
unfolding initlog recover_from_log read_head reboot entries
initlog_ends start size writes d h = (recovery.last, recovery.done)
  where
    booted : Log
    booted = read_head (record (reboot writes d) { start = start; size = size })

    recovery :
        Ends
          (length (entries (d start)) + 1)
          writes
          start
          []
          (recover_from_log (record (reboot writes d) { start = start; size = size }))
    recovery =
        Ends-bind {m = 1} (install_trans true booted) (λ s'. write_head (record s' { lh = [] }))
          (install_trans-Ends true booted (omega arith))
          (λ s u e f. rw (← e) (write_head-Ends (record s { lh = [] }) (omega arith)))
