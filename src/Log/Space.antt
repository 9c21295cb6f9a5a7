-- ===== src/Log/Space.antt =====
-- `begin_op`, `log_write` and `end_op` of kernel/log.c: the log space of a transaction.
use paddle_os.Prelude.{
  ltb, leb, ◌==◌, if◌then◌else◌, Bool-cases, length, All, length-append, ℕ, suc, ◌+◌, ◌-◌, ◌*◌, ◌%◌,
  ◌^◌, ◌≤◌, ◌<◌, ◌≡◌, refl, ◌⊎◌, inl, inr, Bool, true, false, ◌||◌, none, some, List, [], ◌∷◌, ◌++◌,
  arith,
}
use paddle_os.Log.{
  Log, Run, ok, panic, max_op_blocks, log_size, begin_op_try, end_op, log_write, elem,
}

unfoldable pub reserved : List ℕ → ℕ
reserved [] = 0
reserved (x ∷ xs) = x + reserved xs

reserved-append : (xs ys : List ℕ) → reserved (xs ++ ys) ≡ reserved xs + reserved ys
unfolding reserved
reserved-append [] ys = omega arith
reserved-append (x ∷ xs) ys = omega (arith, reserved-append xs ys)

abbrev AtMostTen : List ℕ → Type 0
AtMostTen xs = All (λ k. k ≤ max_op_blocks) xs

AtMostTen-append : (xs ys : List ℕ) → AtMostTen xs → AtMostTen ys → AtMostTen (xs ++ ys)
AtMostTen-append [] ys h k = k
AtMostTen-append (x ∷ xs) ys h k = (h.0, AtMostTen-append xs ys h.1 k)

AtMostTen-split : (xs ys : List ℕ) → AtMostTen (xs ++ ys) → AtMostTen xs × AtMostTen ys
AtMostTen-split [] ys h = (tt, h)
AtMostTen-split (x ∷ xs) ys h = let (a, b) = AtMostTen-split xs ys h.1 in ((h.0, a), b)

reserved-AtMostTen : (xs : List ℕ) → AtMostTen xs → reserved xs ≤ length xs * max_op_blocks
unfolding reserved
reserved-AtMostTen [] h = omega arith
reserved-AtMostTen (x ∷ xs) h = omega (arith, h.0, reserved-AtMostTen xs h.1)

elem-append_self : (b : ℕ) (xs : List ℕ) → elem b (xs ++ b ∷ []) ≡ true
elem-append_self b [] = ground arith
elem-append_self b (x ∷ xs) = ground (arith, elem-append_self b xs)

-- `left` has an entry for each operation between its `begin_op` and its `end_op`: how many more
-- blocks it may still log.
pub record HasSpace (s : Log) (left : List ℕ) : Type 0 where
  pub open_ops : s.outstanding ≡ length left
  pub budget : All (λ k. k ≤ max_op_blocks) left
  pub few : length left * max_op_blocks ≤ log_size
  pub room : length s.lh + reserved left ≤ log_size
  pub idle : s.committing ≡ false

-- `begin_op` goes through exactly when ten blocks for every open operation and the new one fit
-- behind what is logged, and then reserves ten blocks for the new one.
pub begin_op_try_lem :
    (s : Log) (left : List ℕ)
    → HasSpace s left
    → begin_op_try s ≡ (
        if ltb log_size (length s.lh + (length left + 1) * max_op_blocks)
        then none
        else some (record s { outstanding = length left + 1 }))
unfolding begin_op_try
begin_op_try_lem s left h = ground (arith, h.open_ops, h.few, h.room, h.idle)

-- Where `begin_op` goes through, the new operation has ten blocks, and the others keep theirs.
pub begin_op_try-HasSpace :
    (s s' : Log) (left : List ℕ)
    → HasSpace s left
    → begin_op_try s ≡ some s'
    → HasSpace s' (max_op_blocks ∷ left)
unfolding reserved
begin_op_try-HasSpace s s' left h e =
    let test : Bool = ltb log_size (length s.lh + (length left + 1) * max_op_blocks) in
    elim (Bool-cases test) [
      | inl full ↦ ground (arith, begin_op_try_lem s left h, full)
      | inr fits ↦
          let made : s' ≡ record s { outstanding = length left + 1 } =
            ground (arith, begin_op_try_lem s left h, fits) in
          rw made (record {
            open_ops = omega arith;
            budget = (omega arith, h.budget);
            few = ground (arith, fits);
            room = ground (arith, fits, reserved-AtMostTen left h.budget);
            idle = h.idle;
          })
    ]

-- What `log_write` of the block `b` does: with the transaction too large for the log's blocks, of
-- which the header is one, it panics; else the block is in the log, and no other has left it.
pub data LogWrite (b : ℕ) (s : Log) (left : List ℕ) : Run → Type 0 where
  logged :
      (s' : Log)
      → length s.lh + 1 < s.size
      → elem b s'.lh ≡ true
      → (s'.lh ≡ s.lh) ⊎ (s'.lh ≡ s.lh ++ b ∷ [])
      → HasSpace s' left
      → LogWrite b s left (ok s')
  too_big : s.size ≤ length s.lh + 1 → LogWrite b s left panic

-- An operation within its budget can log any block while the log has a block for it: then
-- `log_write` does not panic, the block is in the log afterwards, which is as it was or has the
-- block added at its end, and the operation has one block less left. `log_write` panics exactly
-- where the blocks behind the header are all taken, which the budget allows where the log has no
-- more than 30 blocks.
pub log_write-HasSpace :
    (s : Log) (b : ℕ) (xs ys : List ℕ) (k : ℕ)
    → HasSpace s (xs ++ suc k ∷ ys)
    → LogWrite b s (xs ++ k ∷ ys) (log_write b s)
unfolding log_write reserved
log_write-HasSpace s b xs ys k h =
    let (hx, hy) = AtMostTen-split xs (suc k ∷ ys) h.budget in
    let total : reserved (xs ++ suc k ∷ ys) ≡ reserved xs + (suc k + reserved ys) =
      reserved-append xs (suc k ∷ ys) in
    let total' : reserved (xs ++ k ∷ ys) ≡ reserved xs + (k + reserved ys) =
      reserved-append xs (k ∷ ys) in
    let count : length (xs ++ suc k ∷ ys) ≡ length xs + suc (length ys) =
      length-append xs (suc k ∷ ys) in
    let count' : length (xs ++ k ∷ ys) ≡ length xs + suc (length ys) = length-append xs (k ∷ ys) in
    let budget' : AtMostTen (xs ++ k ∷ ys) =
      AtMostTen-append xs (k ∷ ys) hx (omega (arith, hy.0), hy.1) in
    let tests : leb log_size (length s.lh) ≡ false
        × (s.outstanding == 0 || leb (2 ^ 31) s.outstanding) ≡ false =
      (ground (arith, total, h.room), ground (arith, count, h.open_ops, h.few)) in
    elim (Bool-cases (leb s.size (length s.lh + 1))) [
      | inl e ↦ rw (e, tests.0) (too_big (ground (arith, e)))
      | inr e ↦
          rw (e, tests.0, tests.1)
            (elim (Bool-cases (elem b s.lh)) [
              | inl old ↦ rw old (
                  logged s (ground (arith, e)) old (inl refl) (record {
                    open_ops = omega (arith, count, count', h.open_ops);
                    budget = budget';
                    few = omega (arith, count, count', h.few);
                    room = omega (arith, total, total', h.room);
                    idle = h.idle;
                  }))
              | inr new ↦ rw new (
                  logged _ (ground (arith, e)) (elem-append_self b s.lh) (inr refl) (record {
                    open_ops = omega (arith, count, count', h.open_ops);
                    budget = budget';
                    few = omega (arith, count, count', h.few);
                    room = omega (arith, total, total', h.room, length-append s.lh (b ∷ []));
                    idle = h.idle;
                  }))
            ])
    ]

-- `end_op` of an operation that is not the last leaves the log, the disk and the cache alone and
-- gives back what the operation had left.
pub end_op-HasSpace :
    (s : Log) (xs ys : List ℕ) (k : ℕ)
    → HasSpace s (xs ++ k ∷ ys)
    → 0 < length (xs ++ ys)
    → (s' : Log) × (end_op s ≡ ok s')
      × HasSpace s' (xs ++ ys)
      × (s'.lh ≡ s.lh)
      × (s'.disk ≡ s.disk)
      × (s'.cache ≡ s.cache)
unfolding end_op reserved
end_op-HasSpace s xs ys k h more =
    let (hx, hy) = AtMostTen-split xs (k ∷ ys) h.budget in
    let total : reserved (xs ++ k ∷ ys) ≡ reserved xs + (k + reserved ys) =
      reserved-append xs (k ∷ ys) in
    let count : length (xs ++ k ∷ ys) ≡ length xs + suc (length ys) = length-append xs (k ∷ ys) in
    let count' : length (xs ++ ys) ≡ length xs + length ys = length-append xs ys in
    (
      record s { outstanding = (s.outstanding + 2 ^ 32 - 1) % 2 ^ 32; wakeups = s.wakeups + 1 },
      ground (arith, count, count', h.open_ops, h.few, h.idle),
      record {
        open_ops = omega (arith, count, count', h.open_ops, h.few);
        budget = AtMostTen-append xs ys hx hy.1;
        few = omega (arith, count, count', h.few);
        room = omega (arith, total, reserved-append xs ys, h.room);
        idle = h.idle;
      },
      refl,
      refl,
      refl,
    )
