-- ===== src/Pipe/Read.antt =====
-- `piperead` of kernel/pipe.c against the queue of Pipe/Fifo.
use paddle_os.Prelude.{
  if◌then◌else◌, Bool-cases, length, ℕ, zero, suc, ◌+◌, ◌≡◌, refl, sym, transport, ap, ◌∙◌, ◌≢◌,
  ◌⊎◌, inl, inr, Bool, true, false, ◌&&◌, List, [], ◌∷◌, ◌++◌, arith,
}
use paddle_os.Pipe.{
  Pipe, chan_nwrite, returned, refused, asleep, Run, empty, next_byte, drop_byte, read_from,
  piperead, pipe_size,
}
use paddle_os.Pipe.Fifo.{IsPipe, IsPipe-drop_byte, contents, contents-drop_byte, empty_iff}
use paddle_os.Ring.{slots}

-- `copyout` takes each of the bytes, from the address `a` on.
abbrev pub CopiedOut : (copyout : ℕ → ℕ → Bool) (a : ℕ) → List ℕ → Type 0
CopiedOut copyout a [] = Unit
CopiedOut copyout a (c ∷ cs) = (copyout a c ≡ true) × CopiedOut copyout (suc a) cs

-- Why the loop stopped when it had read `i` of the `n` bytes and left the queue `rest` behind the
-- bytes `lost`, which it took from the pipe and could not copy out.
pub data ReadStop (copyout : ℕ → ℕ → Bool) (addr n i : ℕ) : (lost rest : List ℕ) → Type 0 where
  all_read : {rest : List ℕ} → n ≡ i → ReadStop copyout addr n i [] rest
  drained : ReadStop copyout addr n i [] []
  fault :
      (c : ℕ) {rest : List ℕ}
      → copyout (addr + i) c ≡ false
      → ReadStop copyout addr n i (c ∷ []) rest

-- A run of the loop of `piperead` from the pipe `p`, with `i` of the `n` bytes read before.
pub record ReadOut (copyout : ℕ → ℕ → Bool) (addr n i : ℕ) (p : Pipe) (r : Run) : Type 0 where
  pub lost : List ℕ
  pub queued : contents p ≡ r.delivered ++ (lost ++ contents r.pipe)
  pub copied : CopiedOut copyout (addr + i) r.delivered
  pub valid : IsPipe r.pipe
  pub value : r.stop ≡ returned (i + length r.delivered)
  pub stopped : ReadStop copyout addr n (i + length r.delivered) lost (contents r.pipe)
  pub ends : (r.pipe.readopen ≡ p.readopen) × (r.pipe.writeopen ≡ p.writeopen)
  pub wakes : r.woken ≡ chan_nwrite ∷ []

empty_contents : (p : Pipe) → IsPipe p → empty p ≡ true → contents p ≡ []
unfolding slots
empty_contents p h e = ap (slots pipe_size p.bytes p.nread) ((empty_iff p h).0 e)

cons_nil : {c : ℕ} {cs : List ℕ} → c ∷ cs ≢ []
cons_nil e = cc

i_zero : (i : ℕ) → i ≡ i + 0
i_zero i = omega arith

i_suc : (i k : ℕ) → suc i + k ≡ i + suc k
i_suc i k = omega arith

addr_suc : (addr i : ℕ) → addr + suc i ≡ suc (addr + i)
addr_suc addr i = omega arith

module _ (copyout : ℕ → ℕ → Bool) (addr n : ℕ) where
  abbrev stop_at : ℕ → Pipe → Run
  stop_at i p = record { stop = returned i; pipe = p; woken = chan_nwrite ∷ []; delivered = [] }

  stop_at-ReadOut :
      (i : ℕ) (p p' : Pipe) (lost : List ℕ)
      → contents p ≡ lost ++ contents p'
      → IsPipe p'
      → ReadStop copyout addr n i lost (contents p')
      → (p'.readopen ≡ p.readopen) × (p'.writeopen ≡ p.writeopen)
      → ReadOut copyout addr n i p (stop_at i p')
  stop_at-ReadOut i p p' lost q h s e = record {
    lost = lost;
    queued = q;
    copied = tt;
    valid = h;
    value = ap returned (i_zero i);
    stopped = transport (λ k. ReadStop copyout addr n (i_zero i k) lost (contents p')) s;
    ends = e;
    wakes = refl;
  }

  abbrev deliver : Pipe → Run → Run
  deliver p r = record r { delivered = next_byte p ∷ r.delivered }

  deliver-ReadOut :
      (i : ℕ) (p : Pipe) (r : Run)
      → copyout (addr + i) (next_byte p) ≡ true
      → contents p ≡ next_byte p ∷ contents (drop_byte p)
      → ReadOut copyout addr n (suc i) (drop_byte p) r
      → ReadOut copyout addr n i p (deliver p r)
  unfolding drop_byte
  deliver-ReadOut i p r e c w = record {
    lost = w.lost;
    queued = c ∙ ap (λ l. next_byte p ∷ l) w.queued;
    copied = (e, transport (λ k. CopiedOut copyout (addr_suc addr i k) r.delivered) w.copied);
    valid = w.valid;
    value = w.value ∙ ap returned (i_suc i (length r.delivered));
    stopped =
        transport
          (λ k. ReadStop copyout addr n (i_suc i (length r.delivered) k) w.lost (contents r.pipe))
          w.stopped;
    ends = w.ends;
    wakes = w.wakes;
  }

  finds_nothing :
      (i left : ℕ) (p : Pipe) → empty p ≡ true → read_from copyout addr i (suc left) p ≡ stop_at i p
  unfolding read_from
  finds_nothing i left p e = rw e

  faults :
      (i left : ℕ) (p : Pipe)
      → empty p ≡ false
      → copyout (addr + i) (next_byte p) ≡ false
      → read_from copyout addr i (suc left) p ≡ stop_at i (drop_byte p)
  unfolding read_from
  faults i left p e c = rw e (rw c)

  delivers :
      (i left : ℕ) (p : Pipe)
      → empty p ≡ false
      → copyout (addr + i) (next_byte p) ≡ true
      → read_from copyout addr i (suc left) p
        ≡ deliver p (read_from copyout addr (suc i) left (drop_byte p))
  unfolding read_from
  delivers i left p e c = rw e (rw c)

  drop-ends :
      (p : Pipe) → ((drop_byte p).readopen ≡ p.readopen) × ((drop_byte p).writeopen ≡ p.writeopen)
  unfolding drop_byte
  drop-ends p = (refl, refl)

  read_from_lem :
      (left i : ℕ) (p : Pipe)
      → n ≡ i + left
      → IsPipe p
      → ReadOut copyout addr n i p (read_from copyout addr i left p)
  unfolding read_from
  read_from_lem zero i p e h =
      stop_at-ReadOut i p p [] refl h (all_read (omega (arith, e))) (refl, refl)
  read_from_lem (suc left) i p e h = elim (Bool-cases (empty p)) [
    | inl m ↦
        transport (λ k. ReadOut copyout addr n i p (sym (finds_nothing i left p m) k))
          (stop_at-ReadOut i p p [] refl h
            (transport (λ k. ReadStop copyout addr n i [] (sym (empty_contents p h m) k)) drained)
            (refl, refl))
    | inr m ↦ elim (Bool-cases (copyout (addr + i) (next_byte p))) [
      | inl c ↦
          transport (λ k. ReadOut copyout addr n i p (sym (delivers i left p m c) k))
            (deliver-ReadOut i p (read_from copyout addr (suc i) left (drop_byte p)) c
              (contents-drop_byte p h m)
              (read_from_lem left (suc i) (drop_byte p) (omega (arith, e))
                (IsPipe-drop_byte p h m)))
      | inr c ↦
          transport (λ k. ReadOut copyout addr n i p (sym (faults i left p m c) k))
            (stop_at-ReadOut i p (drop_byte p) (next_byte p ∷ []) (contents-drop_byte p h m)
              (IsPipe-drop_byte p h m) (fault (next_byte p) c) (drop-ends p))
    ]
  ]

module _ (copyout : ℕ → ℕ → Bool) (addr n : ℕ) (killed : Bool) where
  waits :
      (p : Pipe)
      → (empty p && p.writeopen) ≡ true
      → piperead copyout killed addr n p ≡ record {
        stop = if killed then refused else asleep 0;
        pipe = p;
        woken = [];
        delivered = [];
      }
  unfolding piperead
  waits p e = rw e (ground arith)

  reads :
      (p : Pipe)
      → (empty p && p.writeopen) ≡ false
      → piperead copyout killed addr n p ≡ read_from copyout addr 0 n p
  unfolding piperead
  reads p e = rw e

  ReadOut-piperead :
      (p : Pipe)
      → IsPipe p
      → (empty p && p.writeopen) ≡ false
      → ReadOut copyout addr n 0 p (piperead copyout killed addr n p)
  ReadOut-piperead p h e =
      transport (λ k. ReadOut copyout addr n 0 p (sym (reads p e) k))
        (read_from_lem copyout addr n n 0 p (omega arith) h)

nonempty : (p : Pipe) → IsPipe p → empty p ≡ false → contents p ≢ []
nonempty p h e q = cons_nil (sym (contents-drop_byte p h e) ∙ q)

-- A run of `piperead` on an empty pipe that is still written sleeps, or refuses where the process
-- is killed, and leaves the pipe alone. Any other run takes bytes off the front of the queue, in
-- order, copies them out and returns their count: `n` bytes, or all there are, or those before the
-- first that cannot be copied, which is lost. It then wakes the writers.
pub piperead_lem :
    (copyout : ℕ → ℕ → Bool) (killed : Bool) (addr n : ℕ) (p : Pipe)
    → IsPipe p
    → ((contents p ≡ [])
        × (p.writeopen ≡ true)
        × (piperead copyout killed addr n p ≡ record {
          stop = if killed then refused else asleep 0;
          pipe = p;
          woken = [];
          delivered = [];
        }))
      ⊎ (((contents p ≢ []) ⊎ (p.writeopen ≡ false))
          × ReadOut copyout addr n 0 p (piperead copyout killed addr n p))
piperead_lem copyout killed addr n p h = elim (Bool-cases (empty p)) [
  | inl e ↦ elim (Bool-cases p.writeopen) [
    | inl w ↦ inl (empty_contents p h e, w, waits copyout addr n killed p (ground (arith, e, w)))
    | inr w ↦ inr (inr w, ReadOut-piperead copyout addr n killed p h (ground (arith, e, w)))
  ]
  | inr e ↦
      inr (inl (nonempty p h e), ReadOut-piperead copyout addr n killed p h (ground (arith, e)))
]
