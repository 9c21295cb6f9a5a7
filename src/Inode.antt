-- ===== src/Inode.antt =====
-- kernel/fs.c: inodes, in memory and on the disk. `itable.lock` makes `iget`, `idup` and the two
-- halves of `iput` one step each; the sleep lock of an inode is Sleeplock's. A pointer to an inode
-- is its index in `itable.inode`. There is one device, and `dev` is left out. Disk blocks are Fs's.
-- An on-disk inode has 64 bytes: five fields of 2, 2, 2, 2 and 4 bytes, and 13 block numbers.
pub mod Layout
pub mod Update
pub mod Get
pub mod Map
pub mod Alloc
mod Tests
use paddle_os.Prelude.{
  ltb, ◌==◌, if◌then◌else◌, put, Outcome, ◌>>=◌, ℕ, zero, suc, ◌+◌, ◌-◌, ◌*◌, ◌/◌, ◌%◌, Bool, true,
  false, ◌&&◌, Option, none, some, List, [], ◌∷◌, ok, panic,
}
use paddle_os.Memory.{Mem}
use paddle_os.Memory.Words.{load_word, store_word}
use paddle_os.Fs.{Fs, balloc, bfree}

-- `NINODE`, `NDIRECT`, `NINDIRECT` and `IPB`
abbrev pub ninode : ℕ
ninode = 50

abbrev pub ndirect : ℕ
ndirect = 12

abbrev pub nindirect : ℕ
nindirect = 256

abbrev pub inodes_per_block : ℕ
inodes_per_block = 16

pub record Inode : Type 0 where
  pub inum : ℕ
  pub ref : ℕ
  pub valid : Bool
  pub kind : ℕ
  pub major : ℕ
  pub minor : ℕ
  pub nlink : ℕ
  pub size : ℕ
  pub addrs : ℕ → ℕ

-- where the inode is on the disk: `IBLOCK`, and the offset in the block
abbrev pub inode_block : (inodestart inum : ℕ) → ℕ
inode_block inodestart inum = inum / inodes_per_block + inodestart

abbrev pub inode_offset : (inum : ℕ) → ℕ
inode_offset inum = inum % inodes_per_block * 64

-- assignments to consecutive fields, each of a number of bytes
unfoldable pub store_fields : List (ℕ × ℕ) → (a : ℕ) → Mem → Mem
store_fields [] a m = m
store_fields ((n, v) ∷ fields) a m = store_fields fields (a + n) (store_word n m a v)

-- `memmove(dip->addrs, ip->addrs, sizeof(ip->addrs))`, from the entry `i` on
unfoldable pub addr_fields : (left i : ℕ) → (ℕ → ℕ) → List (ℕ × ℕ)
addr_fields zero i addrs = []
addr_fields (suc left) i addrs = (4, addrs i) ∷ addr_fields left (suc i) addrs

abbrev pub fields : Inode → List (ℕ × ℕ)
fields ip =
    (2, ip.kind)
    ∷ (2, ip.major)
    ∷ (2, ip.minor)
    ∷ (2, ip.nlink)
    ∷ (4, ip.size)
    ∷ addr_fields (ndirect + 1) 0 ip.addrs

unfoldable pub iupdate : (inodestart : ℕ) → Inode → Fs → Fs
iupdate inodestart ip fs =
    let bp = inode_block inodestart ip.inum in
    record fs {
      block = put fs.block bp (store_fields (fields ip) (inode_offset ip.inum) (fs.block bp));
      logged = put fs.logged bp true;
    }

-- the fields of the inode on the disk
unfoldable pub read_inode : (inodestart : ℕ) → Fs → Inode → Inode
read_inode inodestart fs ip =
    let m = fs.block (inode_block inodestart ip.inum) in
    let a = inode_offset ip.inum in
    record ip {
      kind = load_word 2 m a;
      major = load_word 2 m (a + 2);
      minor = load_word 2 m (a + 4);
      nlink = load_word 2 m (a + 6);
      size = load_word 4 m (a + 8);
      addrs = λ i. load_word 4 m (a + 12 + 4 * i);
      valid = true;
    }

-- `ilock` behind `acquiresleep`
unfoldable pub ilock : (inodestart : ℕ) → Fs → Inode → Outcome Inode
ilock inodestart fs ip =
    let ip' = read_inode inodestart fs ip in
    if ltb ip.ref 1
    then panic
    else if ip.valid
    then ok ip
    else if ip'.kind == 0
    then panic
    else ok ip'

abbrev pub Itable : Type 0
Itable = ℕ → Inode

-- `if (empty == 0 && ip->ref == 0) empty = ip;`
abbrev pub note_empty : Option ℕ → (i ref : ℕ) → Option ℕ
note_empty none i ref = if ref == 0 then some i else none
note_empty (some e) i ref = some e

-- The loop of `iget`: `empty` is the first free entry before `i`.
unfoldable pub scan_table : (left i inum : ℕ) (empty : Option ℕ) → Itable → Outcome (ℕ × Itable)
scan_table zero i inum none t = panic
scan_table zero i inum (some e) t =
    ok (e, put t e (record (t e) { inum = inum; ref = 1; valid = false }))
scan_table (suc left) i inum empty t =
    let empty' = note_empty empty i (t i).ref in
    let rest = scan_table left (suc i) inum empty' t in
    if ltb 0 (t i).ref && (t i).inum == inum
    then ok (i, put t i (record (t i) { ref = (t i).ref + 1 }))
    else rest

unfoldable pub iget : (inum : ℕ) → Itable → Outcome (ℕ × Itable)
iget inum t = scan_table ninode 0 inum none t

unfoldable pub idup : ℕ → Itable → Itable
idup i t = put t i (record (t i) { ref = (t i).ref + 1 })

-- `bmap` for a direct block
unfoldable pub bmap_direct : (bn : ℕ) → Inode → Fs → Outcome (ℕ × Inode × Fs)
bmap_direct bn ip fs =
    if ip.addrs bn == 0
    then (balloc fs >>= λ r.
        ok (r.0, (if r.0 == 0 then ip else record ip { addrs = put ip.addrs bn r.0 }), r.1))
    else ok (ip.addrs bn, ip, fs)

-- the entry `bn` of the indirect block `c`
unfoldable pub bmap_entry : (c bn : ℕ) → Inode → Fs → Outcome (ℕ × Inode × Fs)
bmap_entry c bn ip fs =
    let addr = load_word 4 (fs.block c) (4 * bn) in
    if addr == 0
    then (balloc fs >>= λ r. ok (
      r.0,
      ip,
      (if r.0 == 0 then r.1 else record r.1 {
        block = put r.1.block c (store_word 4 (r.1.block c) (4 * bn) r.0);
        logged = put r.1.logged c true;
      }),
    ))
    else ok (addr, ip, fs)

unfoldable pub bmap : (bn : ℕ) → Inode → Fs → Outcome (ℕ × Inode × Fs)
bmap bn ip fs =
    if ltb bn ndirect
    then bmap_direct bn ip fs
    else if ltb (bn - ndirect) nindirect
    then (bmap_direct ndirect ip fs >>= λ r.
        if r.0 == 0 then ok r else bmap_entry r.0 (bn - ndirect) r.1 r.2)
    else panic

-- the `left` direct blocks from `i` on
unfoldable pub free_direct : (left i : ℕ) → Inode → Fs → Outcome (Inode × Fs)
free_direct zero i ip fs = ok (ip, fs)
free_direct (suc left) i ip fs = elim (ip.addrs i == 0) [
  | true ↦ free_direct left (suc i) ip fs
  | false ↦ bfree (ip.addrs i) fs >>= λ fs'.
      free_direct left (suc i) (record ip { addrs = put ip.addrs i 0 }) fs'
]

-- the `left` entries from `j` on of the indirect block `c`
unfoldable pub free_entries : (left j c : ℕ) → Fs → Outcome Fs
free_entries zero j c fs = ok fs
free_entries (suc left) j c fs = elim (load_word 4 (fs.block c) (4 * j) == 0) [
  | true ↦ free_entries left (suc j) c fs
  | false ↦ bfree (load_word 4 (fs.block c) (4 * j)) fs >>= free_entries left (suc j) c
]

unfoldable pub free_indirect : Inode → Fs → Outcome (Inode × Fs)
free_indirect ip fs =
    let c = ip.addrs ndirect in
    if c == 0
    then ok (ip, fs)
    else (free_entries nindirect 0 c fs >>= λ fs1.
        bfree c fs1 >>= λ fs2. ok (record ip { addrs = put ip.addrs ndirect 0 }, fs2))

unfoldable pub itrunc : (inodestart : ℕ) → Inode → Fs → Outcome (Inode × Fs)
itrunc inodestart ip fs = free_direct ndirect 0 ip fs >>= λ r. free_indirect r.0 r.1 >>= λ s.
    let ip' = record s.0 { size = 0 } in ok (ip', iupdate inodestart ip' s.1)

-- the last reference to an inode that no directory has
unfoldable pub free_inode : (inodestart : ℕ) → Inode → Fs → Outcome (Inode × Fs)
free_inode inodestart ip fs = itrunc inodestart ip fs >>= λ r.
    let ip' = record r.0 { kind = 0 } in
    ok (record ip' { valid = false }, iupdate inodestart ip' r.1)

abbrev pub drop_ref : (i : ℕ) → Itable → Inode × Fs → Outcome (Itable × Fs)
drop_ref i t r = ok (put t i (record r.0 { ref = r.0.ref - 1 }), r.1)

unfoldable pub iput : (inodestart i : ℕ) → Itable → Fs → Outcome (Itable × Fs)
iput inodestart i t fs =
    let ip = t i in
    if (ip.ref == 1 && ip.valid) && ip.nlink == 0
    then free_inode inodestart ip fs >>= drop_ref i t
    else drop_ref i t (ip, fs)
