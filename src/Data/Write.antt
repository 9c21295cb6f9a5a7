-- ===== src/Data/Write.antt =====
-- `writei` of kernel/fs.c from the kernel's memory, over bytes that the file has and behind its end.
use paddle_os.Prelude.{
  ltb, ◌==◌, if◌then◌else◌, Bool-cases, if-true, if-false, ℕ, zero, suc, ◌+◌, ◌-◌, ◌*◌, ◌/◌, ◌%◌,
  ◌^◌, ◌≤◌, ◌<◌, ◌≡◌, sym, ap, ap₂, ◌∙◌, inl, inr, true, false, ◌||◌, some, arith, ok,
}
use paddle_os.Inode.Update.{iupdate-other_block}
use paddle_os.Memory.{Mem}
use paddle_os.Memory.Move.{inside}
use paddle_os.Fs.{Fs}
use paddle_os.Inode.{Inode, inode_block, iupdate}
use paddle_os.Data.{bsize, max_file_size, piece, write_loop, writei}
use paddle_os.Data.Content.{block_of, file_byte, bmap-grown}
use paddle_os.Data.Block.{
  kernel_copyin, IsOwner, IsOwner-same, block_of-same, written, IsOwner-written, file_byte-written,
}

-- The disk `fs'` has the file with the `n` bytes from `off` on taken from the memory.
pub record Wrote (s off n src : ℕ) (from : Mem) (ip : Inode) (fs fs' : Fs) : Type 0 where
  pub owner : IsOwner s ip fs'
  pub bytes :
      (o : ℕ)
      → o < ip.size
      → file_byte ip fs' o ≡ (if inside o off n then from (src + (o - off)) else file_byte ip fs o)

nothing :
    (s off left src : ℕ) (from : Mem) (ip : Inode) (fs : Fs)
    → IsOwner s ip fs
    → (left == 0) ≡ true
    → Wrote s off left src from ip fs fs
nothing s off left src from ip fs h e = record {
  owner = h;
  bytes = λ o k. sym (if-false (inside o off left) _ _ (ground (arith, e)));
}

-- one piece, and then the others
Wrote-more :
    (s off left src : ℕ) (from : Mem) (ip : Inode) (fs fs' : Fs)
    → IsOwner s ip fs
    → off < ip.size
    → Wrote s
        (off + piece off left)
        (left - piece off left)
        (src + piece off left)
        from
        ip
        (written off (piece off left) src from ip fs)
        fs'
    → Wrote s off left src from ip fs fs'
Wrote-more s off left src from ip fs fs' h l w = record {
  owner = w.owner;
  bytes = λ o k.
      w.bytes o k ∙ (elim (Bool-cases (inside o (off + piece off left) (left - piece off left))) [
        | inl e ↦
            if-true (inside o (off + piece off left) (left - piece off left)) _ _ e
            ∙ ap from (ground (arith, e))
            ∙ sym (if-true (inside o off left) _ _ (ground (arith, e)))
        | inr e ↦
            if-false (inside o (off + piece off left) (left - piece off left)) _ _ e
            ∙ file_byte-written s ip fs h off (piece off left) src from l o k (omega arith)
            ∙ ap (λ b. if b then from (src + (o - off)) else file_byte ip fs o)
                {y = inside o off left} (ground (arith, e))
      ]);
}

nonzero_block :
    (s off left : ℕ) (ip : Inode) (fs : Fs)
    → IsOwner s ip fs
    → off + left ≤ ip.size
    → (left == 0) ≡ false
    → (block_of (off / bsize) ip fs == 0) ≡ false
nonzero_block s off left ip fs h l e =
    ground (arith, h.mapped.blocks (off / bsize) (ground (arith, e, l)))

write_loop_lem :
    (fuel s src off left tot m : ℕ) (from : Mem) (ip : Inode) (fs : Fs)
    → IsOwner s (record ip { size = m }) fs
    → off + left ≤ m
    → left ≤ fuel
    → (fs' : Fs) × (write_loop (kernel_copyin from) fuel src off left tot ip fs
        ≡ ok (tot + left, off + left, ip, fs'))
      × Wrote s off left src from (record ip { size = m }) fs fs'
unfolding write_loop
write_loop_lem zero s src off left tot m from ip fs h l f = elim (Bool-cases (left == 0)) [
  | inl e ↦ (
    fs,
    rw e (ap₂ (λ t o. ok (t, o, ip, fs)) (ground (arith, e)) (ground (arith, e))),
    nothing s off left src from (record ip { size = m }) fs h e,
  )
  | inr e ↦ absurd (ground (arith, e, f))
]
write_loop_lem (suc fuel) s src off left tot m from ip fs h l f = elim (Bool-cases (left == 0)) [
  | inl e ↦ (
    fs,
    rw e (ap₂ (λ t o. ok (t, o, ip, fs)) (ground (arith, e)) (ground (arith, e))),
    nothing s off left src from (record ip { size = m }) fs h e,
  )
  | inr e ↦
      let p = piece off left in
      let g : Inode = record ip { size = m } in
      let k : off < m = ground (arith, e, l) in
      let rest =
        write_loop_lem fuel s (src + p) (off + p) (left - p) (tot + p) m from ip
          (written off p src from g fs) (IsOwner-written s g fs h off p src from k)
          (omega (arith, l)) (ground (arith, e, f)) in
      (
        rest.0,
        rw (e, bmap-grown off m ip fs h.mapped k, nonzero_block s off left g fs h l e)
            (rest.1 ∙ ap₂ (λ t o. ok (t, o, ip, rest.0)) (omega arith) (omega arith)),
        Wrote-more s off left src from g fs rest.0 h k rest.2,
      )
]

-- `iupdate` writes no block of the file.
block_of-iupdate :
    (s bn : ℕ) (ip : Inode) (fs : Fs)
    → IsOwner s ip fs
    → bn * bsize < ip.size
    → block_of bn ip (iupdate s ip fs) ≡ block_of bn ip fs
block_of-iupdate s bn ip fs h k =
    block_of-same bn (inode_block s ip.inum) ip fs (iupdate s ip fs) k
      (λ big e. h.numbers big (sym e)) (λ c e. iupdate-other_block s c ip fs e)

file_byte-iupdate :
    (s o : ℕ) (ip : Inode) (fs : Fs)
    → IsOwner s ip fs
    → o < ip.size
    → file_byte ip (iupdate s ip fs) o ≡ file_byte ip fs o
file_byte-iupdate s o ip fs h k =
    let b : o / bsize * bsize < ip.size = omega (arith, k) in
    ap (λ c. (iupdate s ip fs).block c (o % bsize)) (block_of-iupdate s (o / bsize) ip fs h b)
    ∙ ap (λ (m : Mem). m (o % bsize))
        (iupdate-other_block s (block_of (o / bsize) ip fs) ip fs
          (λ e. (h.apart (o / bsize) b).0 (sym e)))

Wrote-iupdate :
    (s off n src : ℕ) (from : Mem) (ip : Inode) (fs fs' : Fs)
    → Wrote s off n src from ip fs fs'
    → Wrote s off n src from ip fs (iupdate s ip fs')
Wrote-iupdate s off n src from ip fs fs' w = record {
  owner =
      IsOwner-same s ip fs' (iupdate s ip fs') (λ bn k. block_of-iupdate s bn ip fs' w.owner k)
        w.owner;
  bytes = λ o k. file_byte-iupdate s o ip fs' w.owner k ∙ w.bytes o k;
}

-- the tests at the start of `writei`
in_limits :
    (off n size : ℕ)
    → off + n ≤ size
    → size ≤ max_file_size
    → ((ltb size off || ltb ((off + n) % 2 ^ 32) off) ≡ false)
      × (ltb max_file_size ((off + n) % 2 ^ 32) ≡ false)
in_limits off n size l m = (ground (arith, l, m), ground (arith, l, m))

in_limits_grown :
    (off n size m : ℕ)
    → off ≤ size
    → off + n ≤ m
    → m ≤ max_file_size
    → ((ltb size off || ltb ((off + n) % 2 ^ 32) off) ≡ false)
      × (ltb max_file_size ((off + n) % 2 ^ 32) ≡ false)
in_limits_grown off n size m k l b = (ground (arith, k, l, b), ground (arith, l, b))

-- `writei` from the kernel's memory of `n` bytes from `off` on that the file has, returns `n`, and
-- leaves a file with those bytes replaced by the ones at `src`, and all others, its blocks and its
-- size as before. The blocks of the file must be there and its own.
pub writei_within :
    (s src off n : ℕ) (from : Mem) (ip : Inode) (fs : Fs)
    → IsOwner s ip fs
    → off + n ≤ ip.size
    → (fs' : Fs) × (writei (kernel_copyin from) s src off n ip fs ≡ ok (some n, ip, fs'))
      × Wrote s off n src from ip fs fs'
unfolding writei
writei_within s src off n from ip fs h l =
    let r = write_loop_lem n s src off n 0 ip.size from ip fs h l (omega arith) in
    (
      iupdate s ip r.0,
      rw
          (
            (in_limits off n ip.size l h.mapped.size).0,
            (in_limits off n ip.size l h.mapped.size).1,
            r.1,
          )
          (ap₂ (λ t z. ok (some t, record ip { size = z }, iupdate s (record ip { size = z }) r.0))
            (omega arith) (if-false (ltb ip.size (off + n)) _ _ (ground (arith, l)))),
      Wrote-iupdate s off n src from ip fs r.0 r.2,
    )

-- the size after a write up to `end`
abbrev pub grown : (end : ℕ) → Inode → Inode
grown end ip = record ip { size = if ltb ip.size end then end else ip.size }

-- `writei` from the kernel's memory of `n` bytes from `off` on, inside the file or from its end on,
-- returns `n`. The file's size is then the end of the write where that is greater, and its bytes are
-- those at `src` where it was written, and as before elsewhere. The blocks up to the new size must be
-- there and the file's own.
pub writei_lem :
    (s src off n : ℕ) (from : Mem) (ip : Inode) (fs : Fs)
    → IsOwner s (grown (off + n) ip) fs
    → off ≤ ip.size
    → (fs' : Fs) × (writei (kernel_copyin from) s src off n ip fs
        ≡ ok (some n, grown (off + n) ip, fs'))
      × Wrote s off n src from (grown (off + n) ip) fs fs'
unfolding writei
writei_lem s src off n from ip fs h l =
    let m : ℕ = (grown (off + n) ip).size in
    let fits : off + n ≤ m = ground arith in
    let r = write_loop_lem n s src off n 0 m from ip fs h fits (omega arith) in
    let limits = in_limits_grown off n ip.size m l fits h.mapped.size in
    (
      iupdate s (grown (off + n) ip) r.0,
      rw (limits.0, limits.1, r.1)
          (ap (λ t. ok (some t, grown (off + n) ip, iupdate s (grown (off + n) ip) r.0))
            (omega arith)),
      Wrote-iupdate s off n src from (grown (off + n) ip) fs r.0 r.2,
    )
