-- ===== src/Log/Recovery.antt =====
-- `initlog` of kernel/log.c after a crash: recovery, and a crash during the recovery.
use paddle_os.Prelude.{
  ltb, leb, Bool-cases, Option-cases, length, ℕ, ◌+◌, ◌≤◌, ◌<◌, ◌≡◌, refl, ap, ◌≢◌, inl, inr, Bool,
  true, false, ◌&&◌, List, [], arith,
}
use paddle_os.Log.{
  Disk, Log, ◌>>=◌, log_size, install_trans, read_head, write_head, recover_from_log, initlog, elem,
  reboot,
}
use paddle_os.Log.Header.{
  entries, entries-header, newest, newest-none, newest-some, elem_of_none, content, Outside,
  elem-Outside,
}
use paddle_os.Log.Steps.{
  Ensures, bind, weaken, newest_or, Installed, Touched, install_from-Installed,
}
use paddle_os.Log.Writes.{write_head-HeadWritten}

-- Blocks `bs` that the log of `size` blocks at `start` can hold: they lie outside its own blocks, and
-- there is one of these for each, behind the header, and a place for each in the header.
pub record Fits (start size : ℕ) (bs : List ℕ) : Type 0 where
  pub outside : Outside start (start + size) bs
  pub few : length bs < size
  pub listed : length bs ≤ log_size

abbrev pub in_log : (start size b : ℕ) → Bool
in_log start size b = leb start b && ltb b (start + size)

pub content-lem :
    (start : ℕ) (d : Disk) (b : ℕ)
    → content start d b ≡ newest_or (entries (d start)) (start + 1) b d (d b)
unfolding content
content-lem start d b = refl

module _ {start size : ℕ} {bs : List ℕ} (fits : Fits start size bs) where
  pub start-not-elem : elem start bs ≡ false
  start-not-elem = elim (Bool-cases (elem start bs)) [
    | inl h ↦ ground (arith, fits.few, elem-Outside start (start + size) bs start fits.outside h)
    | inr h ↦ h
  ]

  pub slot-not-elem : (j : ℕ) → in_log start size j ≡ true → elem j bs ≡ false
  slot-not-elem j h = elim (Bool-cases (elem j bs)) [
    | inl e ↦ ground (arith, elem-Outside start (start + size) bs j fits.outside e)
    | inr e ↦ e
  ]

  -- A disk on which only listed blocks differ has the same content.
  pub Touched-content :
      (d d' : Disk)
      → entries (d start) ≡ bs
      → Touched bs d d'
      → (entries (d' start) ≡ bs) × ((b : ℕ) → content start d' b ≡ content start d b)
  Touched-content d d' e touched =
      (same, λ b. rw (content-lem start d' b, content-lem start d b, same, e) (newest-same b))
    where
      same : entries (d' start) ≡ bs
      same = rw (touched start start-not-elem) e

      newest-same :
          (b : ℕ) → newest_or bs (start + 1) b d' (d' b) ≡ newest_or bs (start + 1) b d (d b)
      newest-same b = elim (Option-cases (newest bs (start + 1) b)) [
        | inl n ↦ ground (arith, n, touched b (elem_of_none bs (start + 1) b n))
        | inr (j, n) ↦
            let (_, lo, hi) = newest-some bs (start + 1) b n in
            ground (arith, n, touched j (slot-not-elem j (ground (arith, fits.few, lo, hi))))
      ]

-- Recovery has put every block's content in place, and emptied the log.
pub record Recovered (start : ℕ) (d : Disk) (s' : Log) : Type 0 where
  pub home : (b : ℕ) → b ≢ start → s'.disk b ≡ content start d b
  pub cached : (b : ℕ) → s'.cache b ≡ s'.disk b
  pub emptied : entries (s'.disk start) ≡ []

-- A disk that a recovery can start from, with the same content as `d`.
abbrev pub SameContent : (start : ℕ) → Disk → Disk → Type 0
SameContent start d d' =
    (entries (d' start) ≡ entries (d start)) × ((b : ℕ) → content start d' b ≡ content start d b)

-- the state that `read_head` leaves after a reboot
abbrev booted : (start size writes : ℕ) → Disk → Log
booted start size writes d = record {
  disk = d;
  cache = d;
  pins = λ b. 0;
  start = start;
  size = size;
  outstanding = 0;
  committing = false;
  lh = entries (d start);
  wakeups = 0;
  writes_left = writes;
}

initlog-booted :
    (start size writes : ℕ) (d : Disk)
    → initlog start size (reboot writes d) ≡ (
        install_trans true (booted start size writes d) >>= λ s'.
        write_head (record s' { lh = [] }))
unfolding initlog recover_from_log read_head reboot entries
initlog-booted start size writes d = refl

module _ (start size writes : ℕ) (d : Disk) (fits : Fits start size (entries (d start))) where
  abbrev s1 : Log
  s1 = booted start size writes d

  installed :
      Ensures
        (Installed (start + 1) (entries (d start)) s1)
        (Touched (entries (d start)) d)
        (install_trans true s1)
  unfolding install_trans
  installed =
      install_from-Installed start (start + size) true (entries (d start)) (start + 1) s1
        fits.outside (omega arith) (omega (arith, fits.few)) (λ j a b. refl)

  finish :
      (s2 : Log)
      → Installed (start + 1) (entries (d start)) s1 s2
      → Ensures (Recovered start d) (SameContent start d) (write_head (record s2 { lh = [] }))
  finish s2 i =
      let s3 : Log = record s2 { lh = [] } in
      weaken _ _ _ _ (write_head s3) (write_head-HeadWritten s3)
        (λ s' w. record {
          home = λ b ne. ground (arith, w.disk b, i.home b, content-lem start d b, i.same.start);
          cached = λ b. ground (arith, w.disk b, w.cache b, i.home b, i.cached b);
          emptied =
              rw (w.disk start, i.same.start) (ground (arith, entries-header [] (s2.cache start)));
        })
        (λ d' e. Touched-content fits d d' refl λ b n. ground (
          arith,
          ap (λ (f : Disk). f b) e,
          i.home b,
          newest-none (entries (d start)) (start + 1) b n,
        ))

  -- Recovery of a disk whose header lists blocks that the log can hold: if it ends, each block but
  -- the header reads its newest logged copy, or is untouched, and the log is empty; if the power
  -- fails again, the disk has the same content and the same header as before, so that the recovery
  -- can be run again.
  pub initlog_lem :
      Ensures (Recovered start d) (SameContent start d) (initlog start size (reboot writes d))
  initlog_lem = rw (initlog-booted start size writes d) (
      bind (Installed (start + 1) (entries (d start)) s1) (Recovered start d) (SameContent start d)
        (install_trans true s1) (λ s'. write_head (record s' { lh = [] }))
        (weaken _ _ _ _ (install_trans true s1) installed (λ s i. i)
          (λ d' touched. Touched-content fits d d' refl touched))
        finish)
