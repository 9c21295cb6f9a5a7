-- ===== src/Bio/Tests.antt =====
-- The buffer cache of kernel/bio.c after `binit`, and with one block read.
use paddle_os.Prelude.{
  ◌==◌, if◌then◌else◌, ℕ, ◌+◌, ◌^◌, ◌<◌, ◌≡◌, refl, ◌≢◌, true, false, ◌&&◌, List, [], ◌∷◌, ◌++◌,
  arith,
}
use paddle_os.Bio.{binit_from, Cache, nbuf, binit, bread, brelse}
use paddle_os.Bio.Order.{below}
use paddle_os.Bio.Keeps.{IsCache, IsCache-counted, Coherent, ReadBlock, bread_lem}
use paddle_os.Bio.Release.{binit-IsCache, brelse_lem}

abbrev zeroed : Cache
zeroed = record {
  next = λ i. 0;
  prev = λ i. 0;
  dev = λ i. 0;
  blockno = λ i. 0;
  refcnt = λ i. 0;
  valid = λ i. false;
  bytes = λ i. [];
}

abbrev disk : ℕ → ℕ → List ℕ
disk d n = n ∷ []

idle-binit : (j : ℕ) → (binit zeroed).refcnt j + 1 < 2 ^ 32
unfolding binit binit_from
idle-binit j = omega arith

warm_busy : true ≢ false
warm_busy e = cc

-- Block 33 is in buffer 7, and was written there and not to the disk.
abbrev warm : Cache
warm = record (binit zeroed) {
  dev = λ i. if i == 7 then 1 else 0;
  blockno = λ i. if i == 7 then 33 else 0;
  valid = λ i. i == 7;
  bytes = λ i. if i == 7 then 99 ∷ [] else [];
}

abbrev current : ℕ → ℕ → List ℕ
current d n = if d == 1 && n == 33 then 99 ∷ [] else disk d n

warm-IsCache : IsCache warm (below nbuf)
warm-IsCache =
    let cold = binit-IsCache zeroed (λ i. refl) in
    record {
      order = record {
        linked = cold.order.linked;
        distinct = cold.order.distinct;
        no_head = cold.order.no_head;
        count = cold.order.count;
      };
      unique = λ i j m k l e f. ground (arith, l, e);
    }

warm-Coherent : Coherent current (below nbuf) warm
warm-Coherent = record { holds = λ j m v. let same : j ≡ 7 = ground (arith, v) in rw same refl }

bread_lem_example : ReadBlock current 1 33 (below nbuf) warm (bread disk 1 33 warm)
bread_lem_example =
    bread_lem disk current 1 33 (below nbuf) warm (omega arith) warm-IsCache warm-Coherent
      (λ free. absurd (warm_busy (free 7 refl refl))) idle-binit

-- every buffer held once
abbrev held : Cache
held = record (binit zeroed) { refcnt = λ j. 1 }

brelse_lem_example :
    ((brelse 29 held).refcnt 29 + 1 ≡ held.refcnt 29)
    × IsCache
        (brelse 29 held)
        (if held.refcnt 29 == 1 then 29 ∷ ([] ++ below 29) else [] ++ 29 ∷ below 29)
brelse_lem_example =
    brelse_lem 29 [] (below 29) held (omega arith) (omega arith)
      (IsCache-counted (λ j. 1) (below nbuf) (binit zeroed) (binit-IsCache zeroed (λ i. refl)))
