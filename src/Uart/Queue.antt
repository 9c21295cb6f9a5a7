-- ===== src/Uart/Queue.antt =====
-- The transmit buffer of kernel/uart.c as a queue.
use paddle_os.Prelude.{
  ◌==◌, Bool-cases, length, set, length-set, Outcome, ℕ, zero, suc, ◌+◌, ◌-◌, ◌%◌, ◌^◌, ◌≤◌, ◌<◌,
  ◌≡◌, refl, transport, ap, ◌∙◌, ◌⊎◌, inl, inr, Bool, true, false, Option, none, some, List, [],
  ◌∷◌, ◌++◌, arith, ok,
}
use paddle_os.Ring.{slots, length-slots, slots-push, slots-same_place, IsRing-32}
use paddle_os.Uart.{Uart, uart_tx_buf_size, next_char, drop_char, uartstart, put_char, uartputc}

abbrev pub waiting : Uart → ℕ
waiting u = (u.w + (2 ^ 64 - u.r)) % 2 ^ 64

abbrev pub queue : Uart → List ℕ
queue u = slots uart_tx_buf_size u.bytes u.r (waiting u)

pub record IsUart (u : Uart) : Type 0 where
  pub words : (u.r < 2 ^ 64) × (u.w < 2 ^ 64)
  pub size : length u.bytes ≡ uart_tx_buf_size
  pub fits : waiting u ≤ uart_tx_buf_size

-- The transmitter took `sent` off the front of `before`, from its `k`th character on, and stopped where
-- the queue is empty or the transmitter busy.
pub record Started (idle : ℕ → Bool) (k : ℕ) (before : List ℕ) (s : List ℕ × Uart) : Type 0 where
  pub order : before ≡ s.0 ++ queue s.1
  pub valid : IsUart s.1
  pub ready : (i : ℕ) → i < length s.0 → idle (k + i) ≡ true
  pub stopped : (queue s.1 ≡ []) ⊎ (idle (k + length s.0) ≡ false)

IsUart-drop_char : (u : Uart) → IsUart u → (u.w == u.r) ≡ false → IsUart (drop_char u)
IsUart-drop_char u h e = record {
  words = (omega arith, h.words.1);
  size = h.size;
  fits = ground (arith, h.words.0, h.words.1, h.fits, e);
}

waiting-drop_char :
    (u : Uart) → IsUart u → (u.w == u.r) ≡ false → waiting u ≡ suc (waiting (drop_char u))
waiting-drop_char u h e = ground (arith, h.words.0, h.words.1, e)

queue-drop_char :
    (u : Uart) → IsUart u → (u.w == u.r) ≡ false → queue u ≡ next_char u ∷ queue (drop_char u)
unfolding slots
queue-drop_char u h e =
    ap (slots uart_tx_buf_size u.bytes u.r) (waiting-drop_char u h e)
    ∙ ap (λ l. next_char u ∷ l)
        (slots-same_place uart_tx_buf_size IsRing-32 u.bytes (suc u.r) (drop_char u).r
          (waiting (drop_char u)) (omega arith))

queue-empty : (u : Uart) → IsUart u → (u.w == u.r) ≡ true → queue u ≡ []
unfolding slots
queue-empty u h e = ap (slots uart_tx_buf_size u.bytes u.r) {y = 0} (ground (arith, h.words.0, e))

idle-suc :
    (idle : ℕ → Bool) (k n : ℕ)
    → idle k ≡ true
    → ((i : ℕ) → i < n → idle (suc k + i) ≡ true)
    → (i : ℕ) → i < suc n
    → idle (k + i) ≡ true
idle-suc idle k n f h i l = elim (Bool-cases (i == 0)) [
  | inl e ↦ ap idle {y = k} (ground (arith, e)) ∙ f
  | inr e ↦ ap idle {y = suc k + (i - 1)} (ground (arith, e)) ∙ h (i - 1) (ground (arith, e, l))
]

stopped-suc :
    {P : Type 0} (idle : ℕ → Bool) (k n : ℕ)
    → P ⊎ (idle (suc k + n) ≡ false)
    → P ⊎ (idle (k + suc n) ≡ false)
stopped-suc idle k n (inl p) = inl p
stopped-suc idle k n (inr e) = inr (ap idle (omega arith) ∙ e)

Started-uartstart :
    (fuel : ℕ) (idle : ℕ → Bool) (k : ℕ) (u : Uart)
    → IsUart u
    → waiting u < fuel
    → (s : List ℕ × Uart) × (uartstart fuel idle k u ≡ ok s) × Started idle k (queue u) s
unfolding uartstart
Started-uartstart zero idle k u h l = absurd (omega (arith, l))
Started-uartstart (suc fuel) idle k u h l = elim (Bool-cases (u.w == u.r)) [
  | inl e ↦ (
    ([], u),
    rw e refl,
    record {
      order = refl;
      valid = h;
      ready = λ i q. absurd (omega (arith, q));
      stopped = inl (queue-empty u h e);
    },
  )
  | inr e ↦ elim (Bool-cases (idle k)) [
    | inr f ↦ (
      ([], u),
      rw (e, f) refl,
      record {
        order = refl;
        valid = h;
        ready = λ i q. absurd (omega (arith, q));
        stopped = inr (ap idle (omega arith) ∙ f);
      },
    )
    | inl f ↦
        let rest =
          Started-uartstart fuel idle (suc k) (drop_char u) (IsUart-drop_char u h e)
            (omega (arith, l, waiting-drop_char u h e)) in
        (
          (next_char u ∷ rest.0.0, rest.0.1),
          rw (e, f, rest.1) refl,
          record {
            order = queue-drop_char u h e ∙ ap (λ l. next_char u ∷ l) rest.2.order;
            valid = rest.2.valid;
            ready = idle-suc idle k (length rest.0.0) f rest.2.ready;
            stopped = stopped-suc idle k (length rest.0.0) rest.2.stopped;
          },
        )
  ]
]

-- what `uartputc` does: it sleeps on a full buffer, or queues the character and starts
pub data Put (idle : ℕ → Bool) (c : ℕ) (u : Uart) : Outcome (Option (List ℕ × Uart)) → Type 0 where
  full : length (queue u) ≡ uart_tx_buf_size → Put idle c u (ok none)
  put :
      (s : List ℕ × Uart)
      → Started idle 0 (queue u ++ (c % 256 ∷ [])) s
      → Put idle c u (ok (some s))

waiting-put_char :
    (c : ℕ) (u : Uart)
    → IsUart u
    → (u.w == (u.r + uart_tx_buf_size) % 2 ^ 64) ≡ false
    → (waiting (put_char c u) ≡ suc (waiting u)) × (waiting u < uart_tx_buf_size)
waiting-put_char c u h e = (
  ground (arith, h.words.0, h.words.1, h.fits, e),
  ground (arith, h.words.0, h.words.1, h.fits, e),
)

IsUart-put_char :
    (c : ℕ) (u : Uart)
    → IsUart u
    → (u.w == (u.r + uart_tx_buf_size) % 2 ^ 64) ≡ false
    → IsUart (put_char c u)
IsUart-put_char c u h e = record {
  words = (h.words.0, omega arith);
  size = length-set u.bytes (u.w % uart_tx_buf_size) (c % 256) ∙ h.size;
  fits = omega (arith, (waiting-put_char c u h e).0, (waiting-put_char c u h e).1);
}

queue-put_char :
    (c : ℕ) (u : Uart)
    → IsUart u
    → (u.w == (u.r + uart_tx_buf_size) % 2 ^ 64) ≡ false
    → queue (put_char c u) ≡ queue u ++ (c % 256 ∷ [])
queue-put_char c u h e =
    ap (slots uart_tx_buf_size (put_char c u).bytes u.r) (waiting-put_char c u h e).0
    ∙ ap (λ i. slots uart_tx_buf_size (set u.bytes i (c % 256)) u.r (suc (waiting u)))
        (omega (arith, h.words.0, h.words.1))
    ∙ slots-push uart_tx_buf_size IsRing-32 u.bytes u.r (u.r + waiting u) (waiting u) (c % 256) refl
        h.size (waiting-put_char c u h e).1

-- `uartputc` on a well-formed buffer ends: it sleeps exactly where 32 characters wait, and otherwise
-- puts the character behind those that wait; the transmitter then takes characters off the front, in
-- order and only while it is idle, until none waits or it is busy.
pub uartputc_lem :
    (idle : ℕ → Bool) (c : ℕ) (u : Uart) → IsUart u → Put idle c u (uartputc idle c u)
unfolding uartputc
uartputc_lem idle c u h = elim (Bool-cases (u.w == (u.r + uart_tx_buf_size) % 2 ^ 64)) [
  | inl e ↦ rw e (
      full (
        length-slots uart_tx_buf_size u.bytes u.r (waiting u)
        ∙ ground (arith, h.words.0, h.words.1, e)))
  | inr e ↦
      let v = put_char c u in
      let started =
        Started-uartstart (uart_tx_buf_size + 1) idle 0 v (IsUart-put_char c u h e)
          (omega (arith, (IsUart-put_char c u h e).fits)) in
      rw (e, started.1)
        (put started.0
          (transport (λ i. Started idle 0 (queue-put_char c u h e i) started.0) started.2))
]
