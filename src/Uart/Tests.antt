-- ===== src/Uart/Tests.antt =====
-- kernel/uart.c with two characters that wait and room for one in the transmitter.
use paddle_os.Prelude.{
  ◌==◌, replicate, Outcome, ℕ, ◌≡◌, refl, Bool, Option, none, some, List, [], ◌∷◌, arith, ok, panic,
  out_of_fuel,
}
use paddle_os.Ring.{slots}
use paddle_os.Uart.{Uart, uartputc, uartstart}
use paddle_os.Uart.Queue.{IsUart, Put, queue, uartputc_lem}

abbrev two_waiting : Uart
two_waiting = record { bytes = 97 ∷ 98 ∷ replicate 30 0; w = 2; r = 0 }

abbrev idle_once : ℕ → Bool
idle_once k = k == 0

two_waiting-IsUart : IsUart two_waiting
two_waiting-IsUart = record { words = (omega arith, omega arith); size = refl; fits = omega arith }

uartputc_lem_example : Put idle_once 99 two_waiting (uartputc idle_once 99 two_waiting)
uartputc_lem_example = uartputc_lem idle_once 99 two_waiting two_waiting-IsUart

abbrev transmitted : Outcome (Option (List ℕ × Uart)) → List ℕ × List ℕ
transmitted (ok (some s)) = (s.0, queue s.1)
transmitted (ok none) = ([], [])
transmitted panic = ([], [])
transmitted out_of_fuel = ([], [])

uartputc-waiting : transmitted (uartputc idle_once 99 two_waiting) ≡ (97 ∷ [], 98 ∷ 99 ∷ [])
unfolding slots uartputc uartstart
uartputc-waiting = refl
