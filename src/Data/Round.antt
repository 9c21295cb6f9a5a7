-- ===== src/Data/Round.antt =====
-- Bytes written by `writei` of kernel/fs.c and read again by `readi`.
use paddle_os.Prelude.{
  if-true, ℕ, zero, suc, ◌+◌, ◌≤◌, ◌<◌, ◌≡◌, refl, ap, ap₂, ◌∙◌, some, ◌∷◌, arith, ok,
}
use paddle_os.Memory.Move.{inside}
use paddle_os.Memory.{Mem}
use paddle_os.Fs.{Fs}
use paddle_os.Inode.{Inode}
use paddle_os.Data.{read_bytes, write_bytes, readi, writei}
use paddle_os.Data.Content.{file_byte, file_bytes}
use paddle_os.Data.Read.{kernel_copyout, readi_lem}
use paddle_os.Data.Block.{kernel_copyin, IsOwner}
use paddle_os.Data.Write.{Wrote, writei_within}

file_bytes-read_bytes :
    (n off src : ℕ) (from : Mem) (ip : Inode) (fs : Fs)
    → ((i : ℕ) → i < n → file_byte ip fs (off + i) ≡ from (src + i))
    → file_bytes n off ip fs ≡ read_bytes n src from
unfolding file_bytes read_bytes
file_bytes-read_bytes zero off src from ip fs h = refl
file_bytes-read_bytes (suc n) off src from ip fs h =
    ap₂ (λ x l. x ∷ l)
      (ap (file_byte ip fs) (omega arith) ∙ h 0 (omega arith) ∙ ap from (omega arith))
      (file_bytes-read_bytes n (suc off) (suc src) from ip fs (λ i l.
        ap (file_byte ip fs) (omega arith) ∙ h (suc i) (omega (arith, l)) ∙ ap from (omega arith)))

written_bytes :
    (s off n src : ℕ) (from : Mem) (ip : Inode) (fs fs' : Fs)
    → off + n ≤ ip.size
    → Wrote s off n src from ip fs fs'
    → file_bytes n off ip fs' ≡ read_bytes n src from
written_bytes s off n src from ip fs fs' l w = file_bytes-read_bytes n off src from ip fs' (λ i k.
    w.bytes (off + i) (omega (arith, l, k))
    ∙ if-true (inside (off + i) off n) _ _ (ground (arith, k))
    ∙ ap from {y = src + i} (omega arith))

-- What `writei` wrote over bytes of a file, `readi` reads back: the `n` bytes from `src` on arrive
-- at `dst`. The blocks of the file must be there and its own.
pub readi-writei :
    (s src off n dst : ℕ) (from m : Mem) (ip : Inode) (fs : Fs)
    → IsOwner s ip fs
    → off + n ≤ ip.size
    → (fs' : Fs) × (writei (kernel_copyin from) s src off n ip fs ≡ ok (some n, ip, fs'))
      × (readi kernel_copyout dst off n ip fs' m
          ≡ ok (some n, ip, fs', write_bytes (read_bytes n src from) dst m))
readi-writei s src off n dst from m ip fs h l =
    let r = writei_within s src off n from ip fs h l in
    (
      r.0,
      r.1,
      readi_lem dst off n ip r.0 m r.2.owner.mapped (omega (arith, l, h.mapped.size))
          ∙ ap (λ k. ok (some k, ip, r.0, write_bytes (file_bytes k off ip r.0) dst m))
              (omega (arith, l))
          ∙ ap (λ b. ok (some n, ip, r.0, write_bytes b dst m))
              (written_bytes s off n src from ip fs r.0 l r.2),
    )
