-- ===== src/Log/Atomic.antt =====
-- `commit` of kernel/log.c and crashes: what a disk recovers to, before and after the transaction.
use paddle_os.Prelude.{
  ltb, if◌then◌else◌, Bool-cases, Option-cases, length, ℕ, ◌+◌, ◌<◌, ◌≡◌, refl, ap, ap₂, ◌∙◌, ◌⊎◌,
  inl, inr, false, List, [], ◌∷◌, arith,
}
use paddle_os.Log.{
  Block, Disk, Log, Run, ok, crashed, panic, ◌>>=◌, install_trans, install_from, write_head,
  write_log, write_log_from, commit, initlog, elem, reboot,
}
use paddle_os.Log.Header.{
  entries, entries-header, newest, newest-none, newest-some, elem_of_none, content,
}
use paddle_os.Log.Steps.{
  Ensures, bind, weaken, newest_or, Installed, Touched, install_from-Installed,
}
use paddle_os.Log.Writes.{
  Logged, SlotsTouched, write_log_from-Logged, HeadWritten, write_head-HeadWritten,
}
use paddle_os.Log.Recovery.{Fits, in_log, Touched-content, content-lem, Recovered, initlog_lem}

-- A block after the transaction: the cached copy of a block that is in the log, else the disk's.
unfoldable pub committed : Log → ℕ → Block
committed s b = if elem b s.lh then s.cache b else s.disk b

-- Between two transactions the log on the disk is empty; the transaction fits into the log.
pub record Ready (s : Log) : Type 0 where
  pub empty : entries (s.disk s.start) ≡ []
  pub fits : Fits s.start s.size s.lh

-- The transaction is on the disk, and the log is empty, on the disk and in memory.
pub record Committed (s s' : Log) : Type 0 where
  pub home : (b : ℕ) → in_log s.start s.size b ≡ false → s'.disk b ≡ committed s b
  pub cached : (b : ℕ) → in_log s.start s.size b ≡ false → s'.cache b ≡ s.cache b
  pub emptied : entries (s'.disk s.start) ≡ []
  pub lh : s'.lh ≡ []
  pub start : s'.start ≡ s.start

-- A disk that recovers to the contents `old` outside the log.
pub record Recovers (start size : ℕ) (old : ℕ → Block) (d : Disk) : Type 0 where
  pub fits : Fits start size (entries (d start))
  pub reads : (b : ℕ) → in_log start size b ≡ false → content start d b ≡ old b

abbrev pub Atomic : Log → Disk → Type 0
Atomic s d = Recovers s.start s.size s.disk d ⊎ Recovers s.start s.size (committed s) d

-- the disk with an empty log
plain :
    (start size : ℕ) (d d' : Disk)
    → entries (d' start) ≡ []
    → ((b : ℕ) → in_log start size b ≡ false → d' b ≡ d b)
    → 0 < size
    → Recovers start size d d'
unfolding newest
plain start size d d' e same z = record {
  fits = rw e (record { outside = tt; few = omega (arith, z); listed = omega arith });
  reads = λ b o. rw (content-lem start d' b, e) (same b o);
}

nil_of_length : (xs : List ℕ) → length xs ≡ 0 → xs ≡ []
nil_of_length [] h = refl
nil_of_length (x ∷ xs) h = absurd (omega arith)

Ensures-ok :
    (P : Log → Type 0) (C : Disk → Type 0) (r : Run) (s : Log) → Ensures P C r → r ≡ ok s → P s
Ensures-ok P C (ok s') s h e = let e' : s' ≡ s = cc in rw (← e') h
Ensures-ok P C (crashed d) s h e = cc
Ensures-ok P C panic s h e = cc

Ensures-crashed :
    (P : Log → Type 0) (C : Disk → Type 0) (r : Run) (d : Disk)
    → Ensures P C r
    → r ≡ crashed d
    → C d
Ensures-crashed P C (ok s') d h e = cc
Ensures-crashed P C (crashed d') d h e = let e' : d' ≡ d = cc in rw (← e') h
Ensures-crashed P C panic d h e = cc

module _ (s : Log) (ready : Ready s) where
  -- Before the header is written, only slots of the log have changed.
  slots-Recovers :
      (d' : Disk)
      → SlotsTouched (s.start + 1) (length s.lh) s.disk d'
      → Recovers s.start s.size s.disk d'
  slots-Recovers d' touched =
      plain s.start s.size s.disk d' (rw (touched s.start (ground arith)) ready.empty)
        (λ b o. touched b (ground (arith, o, ready.fits.few))) (omega (arith, ready.fits.few))

  module _ (s1 s2 : Log) (l : Logged (s.start + 1) s.lh s s1) (w : HeadWritten s1 s2) where
    -- Once it is written, the content is that of the transaction.
    entries-s2 : entries (s2.disk s.start) ≡ s.lh
    entries-s2 = ground (
      arith,
      w.disk s.start,
      l.same.start,
      l.same.lh,
      entries-header s.lh (s1.cache s.start) (omega (arith, ready.fits.listed)),
    )

    newest-s2 :
        (b : ℕ)
        → in_log s.start s.size b ≡ false
        → newest_or s.lh (s.start + 1) b s2.disk (s2.disk b) ≡ committed s b
    unfolding committed
    newest-s2 b o = elim (Option-cases (newest s.lh (s.start + 1) b)) [
      | inl n ↦ ground (
        arith,
        n,
        elem_of_none s.lh (s.start + 1) b n,
        w.disk b,
        l.disk b,
        l.same.start,
        ready.fits.few,
      )
      | inr (j, n) ↦
          ground
            (arith, n, newest-some s.lh (s.start + 1) b n, w.disk j, l.copied b j n, l.same.start)
    ]

    cached-s2 :
        (b : ℕ)
        → in_log s.start s.size b ≡ false
        → newest_or s.lh (s.start + 1) b s2.disk (s2.cache b) ≡ s.cache b
    cached-s2 b o = elim (Option-cases (newest s.lh (s.start + 1) b)) [
      | inl n ↦ ground (arith, n, w.cache b, l.cache b, l.same.start, ready.fits.few)
      | inr (j, n) ↦
          ground
            (arith, n, newest-some s.lh (s.start + 1) b n, w.disk j, l.copied b j n, l.same.start)
    ]

    reads-s2 : (b : ℕ) → in_log s.start s.size b ≡ false → content s.start s2.disk b ≡ committed s b
    reads-s2 b o = content-lem s.start s2.disk b ∙ rw entries-s2 (newest-s2 b o)

    Touched-Recovers :
        (d' : Disk) → Touched s.lh s2.disk d' → Recovers s.start s.size (committed s) d'
    Touched-Recovers d' touched =
        let (e, reads) = Touched-content ready.fits s2.disk d' entries-s2 touched in
        record { fits = rw e ready.fits; reads = λ b o. reads b ∙ reads-s2 b o }

    installed :
        Ensures
          (Installed (s.start + 1) s.lh s2)
          (Recovers s.start s.size (committed s))
          (install_trans false s2)
    unfolding install_trans
    installed =
        rw
          (ap₂ (λ (a : ℕ) (b : List ℕ). install_from false (a + 1) b s2)
            (w.same.start ∙ l.same.start) (w.same.lh ∙ l.same.lh))
          (weaken _ _ _ _ (install_from false (s.start + 1) s.lh s2)
            (install_from-Installed s.start (s.start + s.size) false s.lh (s.start + 1) s2
              ready.fits.outside (omega arith) (omega (arith, ready.fits.few))
              (λ j a b. ground (arith, w.disk j, w.cache j, l.coherent j, l.same.start)))
            (λ s3 i. i) Touched-Recovers)

    finish :
        (s3 : Log)
        → Installed (s.start + 1) s.lh s2 s3
        → Ensures
            (Committed s)
            (Recovers s.start s.size (committed s))
            (write_head (record s3 { lh = [] }))
    finish s3 i =
        let s4 : Log = record s3 { lh = [] } in
        let at_start : s3.start ≡ s.start = i.same.start ∙ w.same.start ∙ l.same.start in
        weaken _ _ _ _ (write_head s4) (write_head-HeadWritten s4)
          (λ s' h. record {
            home = λ b o. ground (arith, h.disk b, at_start, i.home b, newest-s2 b o);
            cached = λ b o. ground (arith, h.cache b, at_start, i.cached b, cached-s2 b o);
            emptied =
                ground (arith, h.disk s.start, at_start, entries-header [] (s3.cache s.start));
            lh = h.same.lh;
            start = h.same.start ∙ at_start;
          })
          (λ d' e. Touched-Recovers d' λ b n.
            ground (arith, ap (λ (f : Disk). f b) e, i.home b, newest-none s.lh (s.start + 1) b n))

  written : Ensures (Logged (s.start + 1) s.lh s) (Atomic s) (write_log s)
  unfolding write_log
  written =
      weaken _ _ _ _ (write_log_from (s.start + 1) s.lh s)
        (write_log_from-Logged s.start (s.start + s.size) s.lh (s.start + 1) s ready.fits.outside
          (omega arith) (omega (arith, ready.fits.few)))
        (λ s1 l. l) (λ d touched. inl (slots-Recovers d touched))

  abbrev AfterHead : Log → Type 0
  AfterHead s2 = (s1 : Log) × Logged (s.start + 1) s.lh s s1 × HeadWritten s1 s2

  headed :
      (s1 : Log) → Logged (s.start + 1) s.lh s s1 → Ensures AfterHead (Atomic s) (write_head s1)
  headed s1 l =
      weaken _ _ _ _ (write_head s1) (write_head-HeadWritten s1) (λ s2 w. (s1, l, w))
        (λ d e. inl (slots-Recovers d (λ b n. ap (λ (f : Disk). f b) e ∙ l.disk b n)))

  abbrev AfterInstall : Log → Type 0
  AfterInstall s3 =
      (s1 : Log) × (s2 : Log) × Logged (s.start + 1) s.lh s s1
      × HeadWritten s1 s2
      × Installed (s.start + 1) s.lh s2 s3

  transaction : Ensures (Committed s) (Atomic s) (
      write_log s >>= write_head >>= install_trans false >>= λ s'.
      write_head (record s' { lh = [] }))
  transaction =
      bind AfterInstall (Committed s) (Atomic s)
        (write_log s >>= write_head >>= install_trans false) _
        (bind AfterHead AfterInstall (Atomic s) (write_log s >>= write_head) _
          (bind (Logged (s.start + 1) s.lh s) AfterHead (Atomic s) (write_log s) _ written headed)
          (λ s2 (s1, l, w).
            weaken _ _ _ _ (install_trans false s2) (installed s1 s2 l w)
              (λ s3 i. (s1, s2, l, w, i)) (λ d r. inr r)))
        (λ s3 (s1, s2, l, w, i).
          weaken _ _ _ _ (write_head (record s3 { lh = [] })) (finish s1 s2 l w s3 i) (λ s' c. c)
            (λ d r. inr r))

  nothing : (s.lh ≡ []) → Committed s s
  unfolding committed
  nothing e = record {
    home = λ b o. rw e;
    cached = λ b o. refl;
    emptied = ready.empty;
    lh = e;
    start = refl;
  }

  -- `commit` of a transaction that fits the log: if it ends, every block outside the log is on the
  -- disk as the transaction left it, and the log is empty; if the power fails first, the disk
  -- recovers either to all the old blocks, or to all the new ones.
  pub commit-Atomic : Ensures (Committed s) (Atomic s) (commit s)
  unfolding commit
  commit-Atomic = elim (Bool-cases (ltb 0 (length s.lh))) [
    | inl some' ↦ rw some' transaction
    | inr none' ↦ rw none' (nothing (nil_of_length s.lh (ground arith)))
  ]

-- A crash anywhere in `commit`, then a reboot with `initlog`: every block outside the log is as it
-- was before the transaction, or every one is as the transaction left it.
pub crash_atomic :
    (s : Log) (d : Disk) (writes : ℕ) (s' : Log)
    → Ready s
    → commit s ≡ crashed d
    → initlog s.start s.size (reboot writes d) ≡ ok s'
    → ((b : ℕ) → in_log s.start s.size b ≡ false → s'.disk b ≡ s.disk b)
      ⊎ ((b : ℕ) → in_log s.start s.size b ≡ false → s'.disk b ≡ committed s b)
crash_atomic s d writes s' ready cut again =
    elim (Ensures-crashed _ _ (commit s) d (commit-Atomic s ready) cut) [
      | inl old ↦
          inl
            (λ b o. (recovered old.fits).home b (ground (arith, o, ready.fits.few)) ∙ old.reads b o)
      | inr new ↦
          inr
            (λ b o. (recovered new.fits).home b (ground (arith, o, ready.fits.few)) ∙ new.reads b o)
    ]
  where
    recovered : Fits s.start s.size (entries (d s.start)) → Recovered s.start d s'
    recovered fits =
        Ensures-ok _ _ (initlog s.start s.size (reboot writes d)) s'
          (initlog_lem s.start s.size writes d fits) again
