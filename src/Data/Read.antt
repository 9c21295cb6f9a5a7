-- ===== src/Data/Read.antt =====
-- `readi` of kernel/fs.c into the kernel's memory, for a file whose blocks are all there.
use paddle_os.Prelude.{
  ltb, ◌==◌, if◌then◌else◌, Bool-cases, Outcome, ℕ, zero, suc, ◌+◌, ◌-◌, ◌/◌, ◌%◌, ◌^◌, ◌≤◌, ◌<◌,
  min, ◌≡◌, sym, ap, ap₂, ◌∙◌, inl, inr, Bool, true, false, Option, some, List, arith, ok,
}
use paddle_os.Memory.{Mem}
use paddle_os.Fs.{Fs}
use paddle_os.Inode.{Inode}
use paddle_os.Data.{bsize, piece, read_bytes, write_bytes, read_loop, readi}
use paddle_os.Data.Content.{
  IsMapped, block_of, file_bytes, bmap-block_of, read_bytes-file_bytes, file_bytes-append,
  length-file_bytes, write_bytes-append,
}

-- `either_copyout` with `user_dst` 0: the bytes go to the kernel's memory
abbrev pub kernel_copyout : ℕ → List ℕ → Mem → Mem × Bool
kernel_copyout dst bytes m = (write_bytes bytes dst m, true)

-- how many of the `n` bytes from `off` on the file has
abbrev pub readable : (off n size : ℕ) → ℕ
readable off n size = min n (size - off)

-- one round, and the bytes after it
one_piece :
    (dst off left : ℕ) (ip : Inode) (fs : Fs) (m : Mem)
    → write_bytes
        (file_bytes (left - piece off left) (off + piece off left) ip fs)
        (dst + piece off left)
        (write_bytes
          (read_bytes (piece off left) (off % bsize) (fs.block (block_of (off / bsize) ip fs)))
          dst
          m)
      ≡ write_bytes (file_bytes left off ip fs) dst m
one_piece dst off left ip fs m =
    let p = piece off left in
    let q = left - piece off left in
    ap (λ l. write_bytes (file_bytes q (off + p) ip fs) (dst + p) (write_bytes l dst m))
      (read_bytes-file_bytes p off ip fs (omega arith))
    ∙ ap
        (λ k.
          write_bytes (file_bytes q (off + p) ip fs) (dst + k)
            (write_bytes (file_bytes p off ip fs) dst m))
        (sym (length-file_bytes p off ip fs))
    ∙ sym (write_bytes-append (file_bytes p off ip fs) (file_bytes q (off + p) ip fs) dst m)
    ∙ ap (λ l. write_bytes l dst m)
        (sym (file_bytes-append p q off ip fs) ∙ ap (λ n. file_bytes n off ip fs) (omega arith))

nonzero_block :
    (off left : ℕ) (ip : Inode) (fs : Fs)
    → IsMapped ip fs
    → off + left ≤ ip.size
    → (left == 0) ≡ false
    → (block_of (off / bsize) ip fs == 0) ≡ false
nonzero_block off left ip fs h l e = ground (arith, h.blocks (off / bsize) (ground (arith, e, l)))

-- `readi` has read `tot` bytes
abbrev answer : (tot : ℕ) → Inode → Fs → Mem → Outcome (Option ℕ × Inode × Fs × Mem)
answer tot ip fs m = ok (some tot, ip, fs, m)

read_loop-done :
    (dst off left tot : ℕ) (ip : Inode) (fs : Fs) (m : Mem)
    → (left == 0) ≡ true
    → answer tot ip fs m ≡ answer (tot + left) ip fs (write_bytes (file_bytes left off ip fs) dst m)
unfolding write_bytes file_bytes
read_loop-done dst off left tot ip fs m e =
    ap₂ (λ t w. answer t ip fs w) (ground (arith, e))
      (ap (λ n. write_bytes (file_bytes n off ip fs) dst m) {x = 0} {y = left} (ground (arith, e)))

whole_count :
    (off n size : ℕ)
    → ltb size off ≡ false
    → off + n < 2 ^ 32
    → (if ltb size ((off + n) % 2 ^ 32) then size - off else n) ≡ readable off n size
whole_count off n size e w = ground (arith, e, w)

no_wrap : (off n : ℕ) → off + n < 2 ^ 32 → ltb ((off + n) % 2 ^ 32) off ≡ false
no_wrap off n w = ground (arith, w)

read_loop_lem :
    (fuel dst off left tot : ℕ) (ip : Inode) (fs : Fs) (m : Mem)
    → IsMapped ip fs
    → off + left ≤ ip.size
    → left ≤ fuel
    → read_loop kernel_copyout fuel dst off left tot ip fs m
      ≡ ok (some (tot + left), ip, fs, write_bytes (file_bytes left off ip fs) dst m)
unfolding read_loop
read_loop_lem zero dst off left tot ip fs m h l f = elim (Bool-cases (left == 0)) [
  | inl e ↦ rw e (read_loop-done dst off left tot ip fs m e)
  | inr e ↦ absurd (ground (arith, e, f))
]
read_loop_lem (suc fuel) dst off left tot ip fs m h l f = elim (Bool-cases (left == 0)) [
  | inl e ↦ rw e (read_loop-done dst off left tot ip fs m e)
  | inr e ↦
      rw (e, bmap-block_of off ip fs h (ground (arith, e, l)), nonzero_block off left ip fs h l e)
        (read_loop_lem fuel (dst + piece off left) (off + piece off left) (left - piece off left)
            (tot + piece off left) ip fs
            (write_bytes
              (read_bytes (piece off left) (off % bsize) (fs.block (block_of (off / bsize) ip fs)))
              dst m)
            h (omega (arith, l)) (ground (arith, e, f))
          ∙ ap₂ (λ t w. answer t ip fs w) (omega arith) (one_piece dst off left ip fs m))
]

-- `readi` into the kernel's memory returns how many of the `n` bytes from `off` on the file has, and
-- puts exactly those bytes at `dst`; neither the inode nor the disk changes. The blocks of the file
-- must all be there, and `off + n` fit 32 bits.
pub readi_lem :
    (dst off n : ℕ) (ip : Inode) (fs : Fs) (m : Mem)
    → IsMapped ip fs
    → off + n < 2 ^ 32
    → readi kernel_copyout dst off n ip fs m
      ≡ ok (
        some (readable off n ip.size),
        ip,
        fs,
        write_bytes (file_bytes (readable off n ip.size) off ip fs) dst m,
      )
unfolding readi
readi_lem dst off n ip fs m h w = elim (Bool-cases (ltb ip.size off)) [
  | inl e ↦ rw e (
      read_loop-done dst off (readable off n ip.size) 0 ip fs m (ground (arith, e))
      ∙ ap (λ t. answer t ip fs (write_bytes (file_bytes (readable off n ip.size) off ip fs) dst m))
          (omega arith))
  | inr e ↦
      let k = readable off n ip.size in
      rw (e, no_wrap off n w, whole_count off n ip.size e w)
        (read_loop_lem k dst off k 0 ip fs m h (ground (arith, e)) (omega arith)
          ∙ ap (λ t. answer t ip fs (write_bytes (file_bytes k off ip fs) dst m)) (omega arith))
]
