-- ===== src/Uart.antt =====
-- kernel/uart.c: the transmit buffer. A run of `uartputc` goes from `acquire` or a return from `sleep`
-- up to the next `sleep` or `release`. The line status register is hardware: `idle k` is whether
-- the transmitter is idle when it is tested after `k` characters were written to it. The characters
-- written to the transmit register are a list. The loop after a panic is left out.
pub mod Queue
mod Tests
use paddle_os.Prelude.{
  ◌==◌, if◌then◌else◌, set, get_or, Outcome, ◌>>=◌, ℕ, zero, suc, ◌+◌, ◌%◌, ◌^◌, Bool, not, Option,
  none, some, List, [], ◌∷◌, ok, out_of_fuel,
}

-- `UART_TX_BUF_SIZE`
abbrev pub uart_tx_buf_size : ℕ
uart_tx_buf_size = 32

pub record Uart : Type 0 where
  pub bytes : List ℕ
  pub w : ℕ  -- uint64
  pub r : ℕ  -- uint64

-- `c = uart_tx_buf[uart_tx_r % UART_TX_BUF_SIZE]; uart_tx_r += 1;`
abbrev pub next_char : Uart → ℕ
next_char u = get_or u.bytes (u.r % uart_tx_buf_size) 0

abbrev pub drop_char : Uart → Uart
drop_char u = record u { r = (u.r + 1) % 2 ^ 64 }

-- What `uartstart` wrote, and the state it left. It wakes the writers once for each character.
unfoldable pub uartstart : (fuel : ℕ) (idle : ℕ → Bool) (k : ℕ) → Uart → Outcome (List ℕ × Uart)
uartstart zero idle k u = out_of_fuel
uartstart (suc fuel) idle k u =
    let rest = uartstart fuel idle (suc k) (drop_char u) >>= λ s. ok (next_char u ∷ s.0, s.1) in
    if u.w == u.r then ok ([], u) else if not (idle k) then ok ([], u) else rest

abbrev pub put_char : ℕ → Uart → Uart
put_char c u = record u {
  bytes = set u.bytes (u.w % uart_tx_buf_size) (c % 256);
  w = (u.w + 1) % 2 ^ 64;
}

-- `none`: it sleeps on `uart_tx_r`. One round for each of the 32 characters, and one to stop.
unfoldable pub uartputc : (idle : ℕ → Bool) (c : ℕ) → Uart → Outcome (Option (List ℕ × Uart))
uartputc idle c u =
    if u.w == (u.r + uart_tx_buf_size) % 2 ^ 64
    then ok none
    else (uartstart (uart_tx_buf_size + 1) idle 0 (put_char c u) >>= λ s. ok (some s))
