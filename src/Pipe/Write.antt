-- ===== src/Pipe/Write.antt =====
-- `pipewrite` of kernel/pipe.c against the queue of Pipe/Fifo.
use paddle_os.Prelude.{
  Bool-cases, Option-cases, length, ℕ, zero, suc, ◌+◌, ◌-◌, ◌≤◌, ◌<◌, ◌≡◌, refl, sym, transport, ap,
  ◌∙◌, ◌⊎◌, inl, inr, Bool, true, false, not, ◌||◌, Option, none, some, List, [], ◌∷◌, ◌++◌, arith,
}
use paddle_os.Pipe.{
  Pipe, Channel, chan_nread, Stop, returned, refused, asleep, Run, full, put_byte, write_from,
  pipewrite, pipe_size,
}
use paddle_os.Pipe.Fifo.{IsPipe, IsPipe-put_byte, contents, count, contents-put_byte, full_iff}
use paddle_os.Ring.{length-slots}

-- `sent` are the bytes that `copyin` reads from the address `a` on.
abbrev pub CopiedIn : (copyin : ℕ → Option ℕ) (a : ℕ) → List ℕ → Type 0
CopiedIn copyin a [] = Unit
CopiedIn copyin a (c ∷ cs) = (copyin a ≡ some c) × CopiedIn copyin (suc a) cs

-- Why a run of `pipewrite` stopped with `i` of the `n` bytes done.
abbrev WriteStop :
    (copyin : ℕ → Option ℕ) (killed : ℕ → Bool) (addr n i : ℕ) (p : Pipe) → Stop → Type 0
WriteStop copyin killed addr n i p (returned j) = (j ≡ i) × ((n ≡ i) ⊎ (copyin (addr + i) ≡ none))
WriteStop copyin killed addr n i p refused = (i < n) × ((p.readopen ≡ false) ⊎ (killed i ≡ true))
WriteStop copyin killed addr n i p (asleep j) =
    (j ≡ i) × (i < n) × (length (contents p) ≡ pipe_size)

-- A run of `pipewrite` from the pipe `p`, with `i` of the `n` bytes done before.
pub record Written (copyin : ℕ → Option ℕ) (killed : ℕ → Bool) (addr n i : ℕ) (p : Pipe) (r : Run)
    : Type 0 where
  pub sent : List ℕ
  pub queued : contents r.pipe ≡ contents p ++ sent
  pub copied : CopiedIn copyin (addr + i) sent
  pub valid : IsPipe r.pipe
  pub stopped : WriteStop copyin killed addr n (i + length sent) r.pipe r.stop
  pub ends : (r.pipe.readopen ≡ p.readopen) × (r.pipe.writeopen ≡ p.writeopen)
  pub wakes : (r.stop ≡ refused) ⊎ (r.woken ≡ chan_nread ∷ [])

append_nil : (xs : List ℕ) → xs ≡ xs ++ []
append_nil [] = refl
append_nil (x ∷ xs) = ap (λ l. x ∷ l) (append_nil xs)

append_last : (xs : List ℕ) (c : ℕ) (ys : List ℕ) → (xs ++ (c ∷ [])) ++ ys ≡ xs ++ (c ∷ ys)
append_last [] c ys = refl
append_last (x ∷ xs) c ys = ap (λ l. x ∷ l) (append_last xs c ys)

i_zero : (i : ℕ) → i ≡ i + 0
i_zero i = omega arith

i_suc : (i k : ℕ) → suc i + k ≡ i + suc k
i_suc i k = omega arith

addr_suc : (addr i : ℕ) → addr + suc i ≡ suc (addr + i)
addr_suc addr i = omega arith

module _ (copyin : ℕ → Option ℕ) (killed : ℕ → Bool) (addr n : ℕ) where
  -- a run that stops before it writes a byte
  stopped_now :
      (i : ℕ) (p : Pipe) (stop : Stop) (woken : List Channel)
      → IsPipe p
      → WriteStop copyin killed addr n i p stop
      → (stop ≡ refused) ⊎ (woken ≡ chan_nread ∷ [])
      → Written copyin killed addr n i p
          (record { stop = stop; pipe = p; woken = woken; delivered = [] })
  stopped_now i p stop woken h s w = record {
    sent = [];
    queued = append_nil (contents p);
    copied = tt;
    valid = h;
    stopped = transport (λ k. WriteStop copyin killed addr n (i_zero i k) p stop) s;
    ends = (refl, refl);
    wakes = w;
  }

  wrote_one :
      (i : ℕ) (p : Pipe) (ch : ℕ) (r : Run)
      → copyin (addr + i) ≡ some ch
      → contents (put_byte ch p) ≡ contents p ++ (ch ∷ [])
      → Written copyin killed addr n (suc i) (put_byte ch p) r
      → Written copyin killed addr n i p r
  unfolding put_byte
  wrote_one i p ch r e c w = record {
    sent = ch ∷ w.sent;
    queued = w.queued ∙ ap (λ l. l ++ w.sent) c ∙ append_last (contents p) ch w.sent;
    copied = (e, transport (λ k. CopiedIn copyin (addr_suc addr i k) w.sent) w.copied);
    valid = w.valid;
    stopped =
        transport (λ k. WriteStop copyin killed addr n (i_suc i (length w.sent) k) r.pipe r.stop)
          w.stopped;
    ends = w.ends;
    wakes = w.wakes;
  }

  refuses :
      (left i : ℕ) (p : Pipe)
      → (not p.readopen || killed i) ≡ true
      → write_from copyin killed addr i (suc left) p
        ≡ record { stop = refused; pipe = p; woken = []; delivered = [] }
  unfolding write_from
  refuses left i p g = rw g

  sleeps :
      (left i : ℕ) (p : Pipe)
      → (not p.readopen || killed i) ≡ false
      → full p ≡ true
      → write_from copyin killed addr i (suc left) p
        ≡ record { stop = asleep i; pipe = p; woken = chan_nread ∷ []; delivered = [] }
  unfolding write_from
  sleeps left i p g f = rw g (rw f)

  faults :
      (left i : ℕ) (p : Pipe)
      → (not p.readopen || killed i) ≡ false
      → full p ≡ false
      → copyin (addr + i) ≡ none
      → write_from copyin killed addr i (suc left) p
        ≡ record { stop = returned i; pipe = p; woken = chan_nread ∷ []; delivered = [] }
  unfolding write_from
  faults left i p g f e = rw g (rw f (rw e))

  goes_on :
      (left i : ℕ) (p : Pipe) (ch : ℕ)
      → (not p.readopen || killed i) ≡ false
      → full p ≡ false
      → copyin (addr + i) ≡ some ch
      → write_from copyin killed addr i (suc left) p
        ≡ write_from copyin killed addr (suc i) left (put_byte ch p)
  unfolding write_from
  goes_on left i p ch g f e = rw g (rw f (rw e))

  write_from_lem :
      (left i : ℕ) (p : Pipe)
      → n ≡ i + left
      → IsPipe p
      → Written copyin killed addr n i p (write_from copyin killed addr i left p)
  unfolding write_from
  write_from_lem zero i p e h =
      stopped_now i p (returned i) (chan_nread ∷ []) h (refl, inl (omega (arith, e))) (inr refl)
  write_from_lem (suc left) i p e h = elim (Bool-cases (not p.readopen || killed i)) [
    | inl g ↦
        transport (λ k. Written copyin killed addr n i p (sym (refuses left i p g) k))
          (stopped_now i p refused [] h (omega (arith, e), ground (arith, g)) (inl refl))
    | inr g ↦ elim (Bool-cases (full p)) [
      | inl f ↦
          transport (λ k. Written copyin killed addr n i p (sym (sleeps left i p g f) k))
            (stopped_now i p (asleep i) (chan_nread ∷ []) h
              (
                refl,
                omega (arith, e),
                length-slots pipe_size p.bytes p.nread (count p) ∙ (full_iff p h).0 f,
              )
              (inr refl))
      | inr f ↦ elim (Option-cases (copyin (addr + i))) [
        | inl c ↦
            transport (λ k. Written copyin killed addr n i p (sym (faults left i p g f c) k))
              (stopped_now i p (returned i) (chan_nread ∷ []) h (refl, inr c) (inr refl))
        | inr (ch, c) ↦
            transport (λ k. Written copyin killed addr n i p (sym (goes_on left i p ch g f c) k))
              (wrote_one i p ch (write_from copyin killed addr (suc i) left (put_byte ch p)) c
                (contents-put_byte p ch h f)
                (write_from_lem left (suc i) (put_byte ch p) (omega (arith, e))
                  (IsPipe-put_byte p ch h f)))
      ]
    ]
  ]

-- A run of `pipewrite` with `i` of its `n` bytes done puts behind what waits in the pipe the next
-- bytes of the process's memory, in order, and changes no other byte of the queue. It returns the
-- count of bytes done when that is `n` or the next byte cannot be read, refuses only where nobody
-- reads any more or the process is killed, and sleeps only on a full pipe. Unless it refuses, it
-- wakes the readers.
pub pipewrite_lem :
    (copyin : ℕ → Option ℕ) (killed : ℕ → Bool) (addr n i : ℕ) (p : Pipe)
    → i ≤ n
    → IsPipe p
    → Written copyin killed addr n i p (pipewrite copyin killed addr n i p)
unfolding pipewrite
pipewrite_lem copyin killed addr n i p b h =
    write_from_lem copyin killed addr n (n - i) i p (omega (arith, b)) h
