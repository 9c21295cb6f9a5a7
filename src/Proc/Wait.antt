-- ===== src/Proc/Wait.antt =====
-- `wait` of kernel/proc.c: what one pass over the table answers.
use paddle_os.Prelude.{
  Bool-cases, put, step_over, ℕ, zero, suc, ◌+◌, ◌≤◌, ◌<◌, ◌≡◌, refl, ◌⊎◌, inl, inr, Bool, true,
  false, ◌&&◌, ◌||◌, arith,
}
use paddle_os.Proc.{
  Proc, nproc, is_zombie, is_child, freeproc, Waited, reaped, failed, waits, wait_from, wait,
}

-- a child of `me` that has ended
abbrev pub ended_child : ℕ → Proc → Bool
ended_child me p = is_child me p.parent && is_zombie p.state

-- What a pass over the entries from `i` on did, when `kids` says that a child was seen before.
pub data WaitPass (copied : ℕ → Bool) (left i me : ℕ) (kids : Bool) (ps : ℕ → Proc)
    : Waited × (ℕ → Proc) → Type 0 where
  reaps :
      (k : ℕ)
      → i ≤ k
      → k < i + left
      → ended_child me (ps k) ≡ true
      → ((j : ℕ) → i ≤ j → j < k → ended_child me (ps j) ≡ false)
      → copied k ≡ true
      → WaitPass copied left i me kids ps (reaped (ps k).pid, put ps k (freeproc (ps k)))
  no_copy :
      (k : ℕ)
      → i ≤ k
      → k < i + left
      → ended_child me (ps k) ≡ true
      → copied k ≡ false
      → WaitPass copied left i me kids ps (failed, ps)
  no_child :
      kids ≡ false
      → ((j : ℕ) → i ≤ j → j < i + left → is_child me (ps j).parent ≡ false)
      → WaitPass copied left i me kids ps (failed, ps)
  was_killed :
      (ps me).killed ≡ true
      → ((j : ℕ) → i ≤ j → j < i + left → ended_child me (ps j) ≡ false)
      → WaitPass copied left i me kids ps (failed, ps)
  sleeps :
      (ps me).killed ≡ false
      → (kids ≡ true) ⊎ ((k : ℕ) × (i ≤ k) × (k < i + left) × (is_child me (ps k).parent ≡ true))
      → ((j : ℕ) → i ≤ j → j < i + left → ended_child me (ps j) ≡ false)
      → WaitPass copied left i me kids ps (waits, ps)

module _ (copied : ℕ → Bool) (me : ℕ) (ps : ℕ → Proc) where
  abbrev Ended : ℕ → Type 0
  Ended j = ended_child me (ps j) ≡ false

  WaitPass-later :
      (left i : ℕ) (kids : Bool) (r : Waited × (ℕ → Proc))
      → ended_child me (ps i) ≡ false
      → WaitPass copied left (suc i) me (kids || is_child me (ps i).parent) ps r
      → WaitPass copied (suc left) i me kids ps r
  WaitPass-later left i kids r n (reaps k a b e f c) =
      reaps k (omega (arith, a)) (omega (arith, b)) e
        (λ j x d. step_over Ended i j n (λ l. f j l d) x) c
  WaitPass-later left i kids r n (no_copy k a b e c) =
      no_copy k (omega (arith, a)) (omega (arith, b)) e c
  WaitPass-later left i kids r n (no_child q f) = no_child (ground (arith, q)) (λ j x d.
      step_over (λ j. is_child me (ps j).parent ≡ false) i j (ground (arith, q))
        (λ l. f j l (omega (arith, d))) x)
  WaitPass-later left i kids r n (was_killed q f) =
      was_killed q (λ j x d. step_over Ended i j n (λ l. f j l (omega (arith, d))) x)
  WaitPass-later left i kids r n (sleeps q w f) =
      sleeps q (seen w) (λ j x d. step_over Ended i j n (λ l. f j l (omega (arith, d))) x)
    where
      seen :
          ((kids || is_child me (ps i).parent) ≡ true)
            ⊎ ((k : ℕ) × (suc i ≤ k) × (k < suc i + left) × (is_child me (ps k).parent ≡ true))
          → (kids ≡ true)
            ⊎ ((k : ℕ) × (i ≤ k) × (k < i + suc left) × (is_child me (ps k).parent ≡ true))
      seen (inl e) = elim (Bool-cases kids) [
        | inl y ↦ inl y
        | inr y ↦ inr (i, omega arith, omega arith, ground (arith, e, y))
      ]
      seen (inr (k, a, b, c)) = inr (k, omega (arith, a), omega (arith, b), c)

  wait_from_lem :
      (left i : ℕ) (kids : Bool)
      → WaitPass copied left i me kids ps (wait_from copied left i me kids ps)
  unfolding wait_from
  wait_from_lem zero i false = no_child refl (λ j a b. absurd (omega (arith, a, b)))
  wait_from_lem zero i true = elim (Bool-cases (ps me).killed) [
    | inl e ↦ rw e (was_killed e (λ j a b. absurd (omega (arith, a, b))))
    | inr e ↦ rw e (sleeps e (inl refl) (λ j a b. absurd (omega (arith, a, b))))
  ]
  wait_from_lem (suc left) i kids = elim (Bool-cases (ended_child me (ps i))) [
    | inl e ↦ elim (Bool-cases (copied i)) [
      | inl c ↦
          rw e
            (rw c (reaps i (omega arith) (omega arith) e (λ j a b. absurd (omega (arith, a, b))) c))
      | inr c ↦ rw e (rw c (no_copy i (omega arith) (omega arith) e c))
    ]
    | inr e ↦ rw e (
        WaitPass-later left i kids _ e
          (wait_from_lem left (suc i) (kids || is_child me (ps i).parent)))
  ]

-- A pass of `wait` frees the first child that has ended and returns its pid. It returns -1 where
-- that child's status cannot be copied out, where there is no child, or where no child has ended
-- and the process is killed; it sleeps where there is a child, none has ended and the process is
-- not killed. Only the entry of the child changes.
pub wait_lem :
    (copied : ℕ → Bool) (me : ℕ) (ps : ℕ → Proc)
    → WaitPass copied nproc 0 me false ps (wait copied me ps)
unfolding wait
wait_lem copied me ps = wait_from_lem copied me ps nproc 0 false
