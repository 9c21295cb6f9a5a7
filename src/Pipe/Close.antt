-- ===== src/Pipe/Close.antt =====
-- What a closed end of a pipe means for the other end.
use paddle_os.Prelude.{
  length, ℕ, suc, ◌-◌, ◌<◌, ◌≡◌, refl, sym, ap, ◌∙◌, ◌≢◌, inl, inr, Bool, true, false, Option, List,
  [], ◌∷◌, ◌++◌, arith,
}
use paddle_os.Pipe.{Pipe, returned, refused, write_from, pipewrite, piperead, pipeclose}
use paddle_os.Pipe.Fifo.{IsPipe, contents}
use paddle_os.Pipe.Read.{piperead_lem}

-- the pipe that `pipeclose` leaves
abbrev pub closed : Bool → Pipe → Pipe
closed writable p = (pipeclose writable p).0

suc_gap : (n i : ℕ) → i < n → n - i ≡ suc (n - i - 1)
suc_gap n i h = omega (arith, h)

true-false : true ≢ false
true-false e = cc

append_nil_left : (xs ys : List ℕ) → xs ++ ys ≡ [] → xs ≡ []
append_nil_left [] ys e = refl
append_nil_left (x ∷ xs) ys e = cc

IsPipe-closed : (p : Pipe) → IsPipe p → IsPipe (closed true p)
unfolding pipeclose
IsPipe-closed p h = record {
  nread_word = h.nread_word;
  nwrite_word = h.nwrite_word;
  page = h.page;
  fits = h.fits;
}

-- Once the reading end is closed, a `pipewrite` with a byte to write returns -1 at once.
pub pipewrite-closed :
    (copyin : ℕ → Option ℕ) (killed : ℕ → Bool) (addr n i : ℕ) (p : Pipe)
    → i < n
    → pipewrite copyin killed addr n i (closed false p)
      ≡ record { stop = refused; pipe = closed false p; woken = []; delivered = [] }
unfolding pipewrite write_from pipeclose
pipewrite-closed copyin killed addr n i p h = rw (suc_gap n i h)

-- Once the writing end is closed, `piperead` neither sleeps nor refuses: it returns the count of
-- bytes it read, and with nothing left to read that is 0.
pub piperead-closed :
    (copyout : ℕ → ℕ → Bool) (killed : Bool) (addr n : ℕ) (p : Pipe)
    → IsPipe p
    → ((piperead copyout killed addr n (closed true p)).stop
        ≡ returned (length (piperead copyout killed addr n (closed true p)).delivered))
      × (contents p ≡ [] → (piperead copyout killed addr n (closed true p)).delivered ≡ [])
unfolding pipeclose
piperead-closed copyout killed addr n p h =
    elim (piperead_lem copyout killed addr n (closed true p) (IsPipe-closed p h)) [
      | inl (c, w, e) ↦ absurd (true-false (sym w))
      | inr (why, w) ↦
          (w.value ∙ ap returned (omega arith), λ c. append_nil_left _ _ (sym w.queued ∙ c))
    ]
