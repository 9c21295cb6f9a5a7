-- ===== src/Log/Writes.antt =====
-- What `write_log` and `write_head` of kernel/log.c leave, and what is on the disk if they are cut
-- short.
use paddle_os.Prelude.{
  ltb, leb, ◌==◌, if◌then◌else◌, Option-cases, put, length, ℕ, suc, ◌+◌, ◌≤◌, ◌≡◌, refl, ap, ◌∙◌,
  inl, inr, Bool, true, false, ◌&&◌, some, List, [], ◌∷◌, arith,
}
use paddle_os.Log.{Disk, Log, bwrite, write_log_from, write_head}
use paddle_os.Log.Header.{header, newest, newest-some, Outside, elem-Outside}
use paddle_os.Log.Steps.{Ensures, bind, weaken, Same, Same-refl, Wrote, bwrite-Wrote}

-- whether `b` is one of the `n` slots from `slot` on
abbrev pub in_slots : (slot n b : ℕ) → Bool
in_slots slot n b = leb slot b && ltb b (slot + n)

-- the cached blocks `bs` are copied to the slots from `slot` on
pub record Logged (slot : ℕ) (bs : List ℕ) (s s' : Log) : Type 0 where
  pub copied : (b j : ℕ) → newest bs slot b ≡ some j → s'.disk j ≡ s.cache b
  pub coherent : (j : ℕ) → in_slots slot (length bs) j ≡ true → s'.cache j ≡ s'.disk j
  pub disk : (b : ℕ) → in_slots slot (length bs) b ≡ false → s'.disk b ≡ s.disk b
  pub cache : (b : ℕ) → in_slots slot (length bs) b ≡ false → s'.cache b ≡ s.cache b
  pub same : Same s s'

abbrev pub SlotsTouched : (slot n : ℕ) → Disk → Disk → Type 0
SlotsTouched slot n d d' = (b : ℕ) → in_slots slot n b ≡ false → d' b ≡ d b

Logged-cons :
    (lo hi slot x : ℕ) (bs : List ℕ) (s s1 s' : Log)
    → Outside lo hi (x ∷ bs)
    → lo ≤ slot
    → slot + suc (length bs) ≤ hi
    → Wrote slot (record s { cache = put s.cache slot (s.cache x) }) s1
    → Logged (slot + 1) bs s1 s'
    → Logged slot (x ∷ bs) s s'
unfolding newest
Logged-cons lo hi slot x bs s s1 s' out l h w rest = record {
  copied = λ b j e. elim (Option-cases (newest bs (slot + 1) b)) [
    | inl n ↦ ground (arith, n, rest.disk slot, w.disk slot)
    | inr (i, n) ↦ ground (
      arith,
      n,
      rest.copied b i n,
      w.cache b,
      newest-some bs (slot + 1) b n,
      elem-Outside lo hi bs b out.1,
    )
  ];
  coherent = λ j e. ground (arith, rest.coherent j, rest.disk j, rest.cache j, w.disk j, w.cache j);
  disk = λ b e. ground (arith, rest.disk b, w.disk b);
  cache = λ b e. ground (arith, rest.cache b, w.cache b);
  same = record {
    start = rest.same.start ∙ w.same.start;
    size = rest.same.size ∙ w.same.size;
    outstanding = rest.same.outstanding ∙ w.same.outstanding;
    committing = rest.same.committing ∙ w.same.committing;
    lh = rest.same.lh ∙ w.same.lh;
    wakeups = rest.same.wakeups ∙ w.same.wakeups;
  };
}

module _ (lo hi : ℕ) where
  pub write_log_from-Logged :
      (bs : List ℕ) (slot : ℕ) (s : Log)
      → Outside lo hi bs
      → lo ≤ slot
      → slot + length bs ≤ hi
      → Ensures (Logged slot bs s) (SlotsTouched slot (length bs) s.disk) (write_log_from slot bs s)
  unfolding write_log_from newest
  write_log_from-Logged [] slot s out l h = record {
    copied = λ b j e. cc;
    coherent = λ j e. ground arith;
    disk = λ b e. refl;
    cache = λ b e. refl;
    same = Same-refl s;
  }
  write_log_from-Logged (x ∷ bs) slot s out l h =
      let s0 : Log = record s { cache = put s.cache slot (s.cache x) } in
      bind (Wrote slot s0) (Logged slot (x ∷ bs) s) (SlotsTouched slot (suc (length bs)) s.disk)
        (bwrite slot s0) (write_log_from (slot + 1) bs)
        (weaken _ _ _ _ (bwrite slot s0) (bwrite-Wrote slot s0) (λ s' w. w)
          (λ d e b n. ap (λ (f : Disk). f b) e))
        (λ s1 w.
          weaken _ _ _ _ (write_log_from (slot + 1) bs s1)
            (write_log_from-Logged bs (slot + 1) s1 out.1 (omega arith) (omega arith))
            (λ s' rest. Logged-cons lo hi slot x bs s s1 s' out l h w rest)
            (λ d touched b n. ground (arith, touched b, w.disk b)))

-- the header lists `s.lh`, on the disk and in the cache
pub record HeadWritten (s s' : Log) : Type 0 where
  pub disk :
      (b : ℕ) → s'.disk b ≡ (if s.start == b then header s.lh (s.cache s.start) else s.disk b)
  pub cache :
      (b : ℕ) → s'.cache b ≡ (if s.start == b then header s.lh (s.cache s.start) else s.cache b)
  pub same : Same s s'

pub write_head-HeadWritten : (s : Log) → Ensures (HeadWritten s) (λ d. d ≡ s.disk) (write_head s)
unfolding write_head
write_head-HeadWritten s =
    let s0 : Log = record s { cache = put s.cache s.start (header s.lh (s.cache s.start)) } in
    weaken _ _ _ _ (bwrite s.start s0) (bwrite-Wrote s.start s0)
      (λ s' w. record {
        disk = λ b. ground (arith, w.disk b);
        cache = w.cache;
        same = record {
          start = w.same.start;
          size = w.same.size;
          outstanding = w.same.outstanding;
          committing = w.same.committing;
          lh = w.same.lh;
          wakeups = w.same.wakeups;
        };
      })
      (λ d e. e)
