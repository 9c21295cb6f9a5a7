-- ===== src/Data.antt =====
-- kernel/fs.c: `readi` and `writei`, the bytes of a file. `off` and `n` are `uint`. What
-- `either_copyout` and `either_copyin` do with the process's or the kernel's memory is an argument:
-- `copyout dst bytes s` is the state of that memory after a copy of the bytes to `dst`, and whether
-- the call returned 0; `copyin src n` are the bytes that came from `src`, all `n` where the call
-- returned 0. A result -1 of `readi` and `writei` is `none`. `brelse` follows each `bread`.
pub mod Content
pub mod Read
pub mod Block
pub mod Write
pub mod Round
mod Tests
use paddle_os.Prelude.{
  ltb, ◌==◌, if◌then◌else◌, put, Outcome, ◌>>=◌, ℕ, zero, suc, ◌+◌, ◌-◌, ◌*◌, ◌/◌, ◌%◌, ◌^◌, min,
  Bool, true, ◌||◌, Option, none, some, List, [], ◌∷◌, ok, out_of_fuel,
}
use paddle_os.Memory.{Mem}
use paddle_os.Fs.{Fs}
use paddle_os.Inode.{Inode, ndirect, nindirect, bmap, iupdate}

-- `BSIZE` and `MAXFILE * BSIZE`
abbrev pub bsize : ℕ
bsize = 1024

abbrev pub max_file_size : ℕ
max_file_size = (ndirect + nindirect) * bsize

-- `m = min(n - tot, BSIZE - off % BSIZE);`, with `left` for `n - tot`
abbrev pub piece : (off left : ℕ) → ℕ
piece off left = min left (bsize - off % bsize)

-- the `n` bytes of the block `m` from `a` on
unfoldable pub read_bytes : (n a : ℕ) → Mem → List ℕ
read_bytes zero a m = []
read_bytes (suc n) a m = m a ∷ read_bytes n (suc a) m

unfoldable pub write_bytes : List ℕ → (a : ℕ) → Mem → Mem
write_bytes [] a m = m
write_bytes (c ∷ cs) a m = write_bytes cs (suc a) (put m a c)

module _ {S : Type 0} (copyout : ℕ → List ℕ → S → S × Bool) where
  -- the loop of `readi`
  unfoldable pub read_loop :
      (fuel dst off left tot : ℕ) → Inode → Fs → S → Outcome (Option ℕ × Inode × Fs × S)
  read_loop zero dst off left tot ip fs s =
      if left == 0 then ok (some tot, ip, fs, s) else out_of_fuel
  read_loop (suc fuel) dst off left tot ip fs s =
      let m = piece off left in
      let round = bmap (off / bsize) ip fs >>= λ r.
      let c = copyout dst (read_bytes m (off % bsize) (r.2.block r.0)) s in
      let rest = read_loop fuel (dst + m) (off + m) (left - m) (tot + m) r.1 r.2 c.0 in
      if r.0 == 0
      then ok (some tot, r.1, r.2, s)
      else if c.1
      then rest
      else ok (none, r.1, r.2, c.0) in
      if left == 0 then ok (some tot, ip, fs, s) else round

  -- Each round but the last ends a block or the bytes.
  unfoldable pub readi : (dst off n : ℕ) → Inode → Fs → S → Outcome (Option ℕ × Inode × Fs × S)
  readi dst off n ip fs s =
      if ltb ip.size off || ltb ((off + n) % 2 ^ 32) off
      then ok (some 0, ip, fs, s)
      else let n' = if ltb ip.size ((off + n) % 2 ^ 32) then ip.size - off else n in
        read_loop n' dst off n' 0 ip fs s

-- the block `b` after a copy of the bytes into its buffer
abbrev pub fill_block : (b a : ℕ) → List ℕ → Fs → Fs
fill_block b a bytes fs = record fs { block = put fs.block b (write_bytes bytes a (fs.block b)) }

abbrev pub log_block : ℕ → Fs → Fs
log_block b fs = record fs { logged = put fs.logged b true }

module _ (copyin : (src n : ℕ) → List ℕ × Bool) where
  -- The loop of `writei`; the result has the final `tot` and `off`.
  unfoldable pub write_loop :
      (fuel src off left tot : ℕ) → Inode → Fs → Outcome (ℕ × ℕ × Inode × Fs)
  write_loop zero src off left tot ip fs = if left == 0 then ok (tot, off, ip, fs) else out_of_fuel
  write_loop (suc fuel) src off left tot ip fs =
      let m = piece off left in
      let round = bmap (off / bsize) ip fs >>= λ r.
      let c = copyin src m in
      let fs' = fill_block r.0 (off % bsize) c.0 r.2 in
      let rest = write_loop fuel (src + m) (off + m) (left - m) (tot + m) r.1 (log_block r.0 fs') in
      if r.0 == 0 then ok (tot, off, r.1, r.2) else if c.1 then rest else ok (tot, off, r.1, fs') in
      if left == 0 then ok (tot, off, ip, fs) else round

  unfoldable pub writei : (inodestart src off n : ℕ) → Inode → Fs → Outcome (Option ℕ × Inode × Fs)
  writei inodestart src off n ip fs =
      if ltb ip.size off || ltb ((off + n) % 2 ^ 32) off
      then ok (none, ip, fs)
      else if ltb max_file_size ((off + n) % 2 ^ 32)
      then ok (none, ip, fs)
      else (write_loop n src off n 0 ip fs >>= λ r.
          let (tot, off', ip1, fs1) = r in
          let ip2 = record ip1 { size = if ltb ip1.size off' then off' else ip1.size } in
          ok (some tot, ip2, iupdate inodestart ip2 fs1))
