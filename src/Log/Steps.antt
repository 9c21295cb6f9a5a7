-- ===== src/Log/Steps.antt =====
-- What each loop of kernel/log.c leaves when it ends, and what is on the disk when it is cut short.
use paddle_os.Prelude.{
  ◌==◌, if◌then◌else◌, Option-cases, put, length, ℕ, suc, ◌+◌, ◌-◌, ◌≤◌, ◌<◌, ◌≡◌, refl, ap, ◌∙◌,
  inl, inr, Bool, true, false, none, some, List, [], ◌∷◌, arith,
}
use paddle_os.Log.{
  Block, Disk, Log, Run, ok, crashed, panic, ◌>>=◌, bwrite, unpin, install_from, elem,
}
use paddle_os.Log.Header.{newest, newest-some, Outside}

-- a run ends in a state of `P`, or leaves a disk of `C`
abbrev pub Ensures : (Log → Type 0) → (Disk → Type 0) → Run → Type 0
Ensures P C (ok s) = P s
Ensures P C (crashed d) = C d
Ensures P C panic = ⊥

pub bind :
    (P Q : Log → Type 0) (C : Disk → Type 0) (r : Run) (f : Log → Run)
    → Ensures P C r
    → ((s : Log) → P s → Ensures Q C (f s))
    → Ensures Q C (r >>= f)
bind P Q C (ok s) f h next = next s h
bind P Q C (crashed d) f h next = h
bind P Q C panic f h next = h

pub weaken :
    (P Q : Log → Type 0) (C D : Disk → Type 0) (r : Run)
    → Ensures P C r
    → ((s : Log) → P s → Q s)
    → ((d : Disk) → C d → D d)
    → Ensures Q D r
weaken P Q C D (ok s) h p c = p s h
weaken P Q C D (crashed d) h p c = c d h
weaken P Q C D panic h p c = h

-- what no disk transfer changes
pub record Same (s s' : Log) : Type 0 where
  pub start : s'.start ≡ s.start
  pub size : s'.size ≡ s.size
  pub outstanding : s'.outstanding ≡ s.outstanding
  pub committing : s'.committing ≡ s.committing
  pub lh : s'.lh ≡ s.lh
  pub wakeups : s'.wakeups ≡ s.wakeups

abbrev pub newest_or : List ℕ → (slot b : ℕ) → Disk → Block → Block
newest_or bs slot b d w = elim (newest bs slot b) [ some j ↦ d j | none ↦ w ]

-- the entries `bs` from `slot` on are copied home
pub record Installed (slot : ℕ) (bs : List ℕ) (s s' : Log) : Type 0 where
  pub home : (b : ℕ) → s'.disk b ≡ newest_or bs slot b s.disk (s.disk b)
  pub cached : (b : ℕ) → s'.cache b ≡ newest_or bs slot b s.disk (s.cache b)
  pub same : Same s s'

-- Cut short, it has changed only blocks that it was to write.
abbrev pub Touched : List ℕ → Disk → Disk → Type 0
Touched bs d d' = (b : ℕ) → elem b bs ≡ false → d' b ≡ d b

-- `b` has gone from the cache to the disk
pub record Wrote (b : ℕ) (s s' : Log) : Type 0 where
  pub disk : (a : ℕ) → s'.disk a ≡ (if b == a then s.cache b else s.disk a)
  pub cache : (a : ℕ) → s'.cache a ≡ s.cache a
  pub same : Same s s'

pub Same-refl : (s : Log) → Same s s
Same-refl s = record {
  start = refl;
  size = refl;
  outstanding = refl;
  committing = refl;
  lh = refl;
  wakeups = refl;
}

pub Same-trans : (s s1 s2 : Log) → Same s s1 → Same s1 s2 → Same s s2
Same-trans s s1 s2 p q = record {
  start = q.start ∙ p.start;
  size = q.size ∙ p.size;
  outstanding = q.outstanding ∙ p.outstanding;
  committing = q.committing ∙ p.committing;
  lh = q.lh ∙ p.lh;
  wakeups = q.wakeups ∙ p.wakeups;
}

pub bwrite-Wrote : (b : ℕ) (s : Log) → Ensures (Wrote b s) (λ d. d ≡ s.disk) (bwrite b s)
unfolding bwrite
bwrite-Wrote b s =
    elim (s.writes_left == 0)
      as (λ c.
        Ensures (Wrote b s) (λ d. d ≡ s.disk)
          (if c
            then crashed s.disk
            else ok
                (record s { disk = put s.disk b (s.cache b); writes_left = s.writes_left - 1 }))) [
                  | true ↦ refl
                  | false ↦ record {
                    disk = λ a. refl;
                    cache = λ a. refl;
                    same = record {
                      start = refl;
                      size = refl;
                      outstanding = refl;
                      committing = refl;
                      lh = refl;
                      wakeups = refl;
                    };
                  }
                ]

unpin-Wrote : (r : Bool) (x b : ℕ) (s s' : Log) → Wrote b s s' → Wrote b s (unpin r x s')
unfolding unpin
unpin-Wrote true x b s s' w = w
unpin-Wrote false x b s s' w = record {
  disk = w.disk;
  cache = w.cache;
  same = ground (arith, w.same);
}

-- One entry copied home, and the others after it.
Installed-cons :
    (lo hi slot x : ℕ) (bs : List ℕ) (s s1 s' : Log)
    → Outside lo hi (x ∷ bs)
    → lo ≤ slot
    → slot + suc (length bs) ≤ hi
    → s.cache slot ≡ s.disk slot
    → Wrote x (record s { cache = put s.cache x (s.cache slot) }) s1
    → Installed (slot + 1) bs s1 s'
    → Installed slot (x ∷ bs) s s'
unfolding newest
Installed-cons lo hi slot x bs s s1 s' out l h here w rest = record {
  home = λ b. elim (Option-cases (newest bs (slot + 1) b)) [
    | inl e ↦ ground (arith, e, rest.home b, w.disk b, here)
    | inr (j, e) ↦ ground (arith, e, rest.home b, w.disk j, newest-some bs (slot + 1) b e, out.0)
  ];
  cached = λ b. elim (Option-cases (newest bs (slot + 1) b)) [
    | inl e ↦ ground (arith, e, rest.cached b, w.cache b, here)
    | inr (j, e) ↦ ground (arith, e, rest.cached b, w.disk j, newest-some bs (slot + 1) b e, out.0)
  ];
  same = record {
    start = rest.same.start ∙ w.same.start;
    size = rest.same.size ∙ w.same.size;
    outstanding = rest.same.outstanding ∙ w.same.outstanding;
    committing = rest.same.committing ∙ w.same.committing;
    lh = rest.same.lh ∙ w.same.lh;
    wakeups = rest.same.wakeups ∙ w.same.wakeups;
  };
}

module _ (lo hi : ℕ) where
  pub install_from-Installed :
      (recovering : Bool) (bs : List ℕ) (slot : ℕ) (s : Log)
      → Outside lo hi bs
      → lo ≤ slot
      → slot + length bs ≤ hi
      → ((j : ℕ) → slot ≤ j → j < slot + length bs → s.cache j ≡ s.disk j)
      → Ensures (Installed slot bs s) (Touched bs s.disk) (install_from recovering slot bs s)
  unfolding install_from newest
  install_from-Installed recovering [] slot s out l h coherent = record {
    home = λ b. refl;
    cached = λ b. refl;
    same = Same-refl s;
  }
  install_from-Installed recovering (x ∷ bs) slot s out l h coherent =
      let s0 : Log = record s { cache = put s.cache x (s.cache slot) } in
      bind (Wrote x s0) (Installed slot (x ∷ bs) s) (Touched (x ∷ bs) s.disk) (bwrite x s0)
        (λ s'. install_from recovering (slot + 1) bs (unpin recovering x s'))
        (weaken _ _ _ _ (bwrite x s0) (bwrite-Wrote x s0) (λ s' w. w)
          (λ d e b n. ap (λ (f : Disk). f b) e))
        (λ s1 w1.
          let s2 : Log = unpin recovering x s1 in
          let w : Wrote x s0 s2 = unpin-Wrote recovering x x s0 s1 w1 in
          weaken _ _ _ _ (install_from recovering (slot + 1) bs s2)
            (install_from-Installed recovering bs (slot + 1) s2 out.1 (omega arith) (omega arith)
              (λ j a b. ground (arith, w.disk j, w.cache j, coherent j, out.0)))
            (λ s' rest.
              Installed-cons lo hi slot x bs s s2 s' out l h
                (coherent slot (omega arith) (omega arith)) w rest)
            (λ d touched b n. ground (arith, touched b, w.disk b)))
