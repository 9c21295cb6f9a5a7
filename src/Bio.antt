-- ===== src/Bio.antt =====
-- kernel/bio.c: the buffer cache. A pointer to a buffer is its index in `bcache.buf`, and `head` is
-- the index behind the last. `bcache.lock` makes each function one step here; the sleep lock of a
-- buffer is Sleeplock's, so `bget` ends where it calls `acquiresleep`, and `brelse` starts behind
-- `releasesleep`. The disk is an argument of `bread`: `virtio_disk_rw` fills the buffer with the
-- block it names.
pub mod Chain
pub mod Order
pub mod Get
pub mod Keeps
pub mod Release
mod Tests
use paddle_os.Prelude.{
  ◌==◌, if◌then◌else◌, put, Outcome, ◌>>=◌, ℕ, zero, suc, ◌+◌, ◌-◌, ◌%◌, ◌^◌, Bool, true, false,
  ◌&&◌, Option, none, some, List, ok, panic, out_of_fuel,
}

-- `NBUF`
abbrev pub nbuf : ℕ
nbuf = 30

abbrev pub head : ℕ
head = nbuf

pub record Cache : Type 0 where
  pub next : ℕ → ℕ
  pub prev : ℕ → ℕ
  pub dev : ℕ → ℕ
  pub blockno : ℕ → ℕ
  pub refcnt : ℕ → ℕ
  pub valid : ℕ → Bool
  pub bytes : ℕ → List ℕ

-- the loop of `binit` from the buffer `b` on, and the `left` buffers from there
unfoldable pub binit_from : (left b : ℕ) → Cache → Cache
binit_from zero b c = c
binit_from (suc left) b c =
    let c1 = record c { next = put c.next b (c.next head); prev = put c.prev b head } in
    let c2 = record c1 { prev = put c1.prev (c1.next head) b } in
    binit_from left (suc b) (record c2 { next = put c2.next head b })

-- Static data is 0 before.
unfoldable pub binit : Cache → Cache
binit c = binit_from nbuf 0 (record c { next = put c.next head head; prev = put c.prev head head })

-- `for (b = bcache.head.next; b != &bcache.head; b = b->next)`: the buffer that has the block
unfoldable pub find_block : (fuel b dev blockno : ℕ) → Cache → Outcome (Option ℕ)
find_block zero b d n c = out_of_fuel
find_block (suc fuel) b d n c =
    let rest = find_block fuel (c.next b) d n c in
    if b == head then ok none else if c.dev b == d && c.blockno b == n then ok (some b) else rest

-- `for (b = bcache.head.prev; b != &bcache.head; b = b->prev)`: a buffer that nobody uses
unfoldable pub find_lru : (fuel b : ℕ) → Cache → Outcome (Option ℕ)
find_lru zero b c = out_of_fuel
find_lru (suc fuel) b c =
    let rest = find_lru fuel (c.prev b) c in
    if b == head then ok none else if c.refcnt b == 0 then ok (some b) else rest

unfoldable pub take_buffer : (b dev blockno : ℕ) → Cache → Cache
take_buffer b d n c = record c {
  dev = put c.dev b d;
  blockno = put c.blockno b n;
  valid = put c.valid b false;
  refcnt = put c.refcnt b 1;
}

-- A walk around the list takes one round for each buffer and one for the head.
unfoldable pub bget : (dev blockno : ℕ) → Cache → Outcome (ℕ × Cache)
bget d n c = find_block (nbuf + 1) (c.next head) d n c >>= λ hit. elim hit [
  | some b ↦ ok (b, record c { refcnt = put c.refcnt b ((c.refcnt b + 1) % 2 ^ 32) })
  | none ↦ find_lru (nbuf + 1) (c.prev head) c >>= λ free. elim free [
    | none ↦ panic
    | some b ↦ ok (b, take_buffer b d n c)
  ]
]

unfoldable pub fill : (disk : ℕ → ℕ → List ℕ) → ℕ → Cache → Cache
fill disk b c = if c.valid b then c else record c {
  bytes = put c.bytes b (disk (c.dev b) (c.blockno b));
  valid = put c.valid b true;
}

unfoldable pub bread : (disk : ℕ → ℕ → List ℕ) (dev blockno : ℕ) → Cache → Outcome (ℕ × Cache)
bread disk d n c = bget d n c >>= λ r. ok (r.0, fill disk r.0 r.1)

-- The buffer is taken out of the list and put behind the head.
unfoldable pub move_to_front : ℕ → Cache → Cache
move_to_front b c =
    let c1 = record c { prev = put c.prev (c.next b) (c.prev b) } in
    let c2 = record c1 { next = put c1.next (c1.prev b) (c1.next b) } in
    let c3 = record c2 { next = put c2.next b (c2.next head) } in
    let c4 = record c3 { prev = put c3.prev b head } in
    let c5 = record c4 { prev = put c4.prev (c4.next head) b } in
    record c5 { next = put c5.next head b }

-- `uint refcnt`
unfoldable pub brelse : ℕ → Cache → Cache
brelse b c =
    let r = (c.refcnt b + (2 ^ 32 - 1)) % 2 ^ 32 in
    let c' = record c { refcnt = put c.refcnt b r } in if r == 0 then move_to_front b c' else c'

unfoldable pub bpin : ℕ → Cache → Cache
bpin b c = record c { refcnt = put c.refcnt b ((c.refcnt b + 1) % 2 ^ 32) }

unfoldable pub bunpin : ℕ → Cache → Cache
bunpin b c = record c { refcnt = put c.refcnt b ((c.refcnt b + (2 ^ 32 - 1)) % 2 ^ 32) }
