-- ===== src/Platform/Terminal.antt =====
-- The terminal side of `main`: the loop that drains the serial port, with its delayed carriage
-- returns, and the characters that the input thread and the signal handler give the port.
use rv64_emulator.Common.{ℕ, zero, suc, Bool, true, false, ◌&&◌, not, ◌==◌, if◌then◌else◌}
use rv64_emulator.Common.{List, [], ◌∷◌, ◌++◌}
use rv64_emulator.Device.Uart.{Uart, getc, putc, tx_buffer_not_empty}

-- `delay_cr`, and what has been printed.
pub record Terminal : Type 0 where
  pub delay_cr : Bool
  pub printed : List ℕ

abbrev pub carriage_return : ℕ
carriage_return = 13

abbrev pub line_feed : ℕ
line_feed = 10

-- The body of the loop after Getc.
unfoldable pub show : Terminal → ℕ → Terminal
show t ch = if ch == carriage_return then record t { delay_cr = true } else record {
  delay_cr = false;
  printed =
      t.printed
      ++ ((if t.delay_cr && not (ch == line_feed) then carriage_return ∷ [] else []) ++ (ch ∷ []));
}

-- `while (raw_uart->TxBufferNotEmpty())` for at most `fuel` rounds.
unfoldable pub drain : ℕ → Uart → Terminal → Uart × Terminal
unfolding show
drain zero u t = (u, t)
drain (suc fuel) u t =
    let (ch, u') = getc u in
    let rest = drain fuel u' (show t ch) in if tx_buffer_not_empty u then rest else (u, t)

-- UartInput: a line feed of the keyboard is a carriage return for the guest.
unfoldable pub input_char : ℕ → ℕ
input_char c = if c == line_feed then carriage_return else c

unfoldable pub uart_input : Uart → ℕ → Uart
unfolding input_char
uart_input u c = putc u (input_char c)

-- The interrupt of the keyboard, which the handler notes in `send_ctrl_c`.
unfoldable pub send_interrupt : Bool → Uart → Uart
send_interrupt send_ctrl_c u = if send_ctrl_c then putc u 3 else u
