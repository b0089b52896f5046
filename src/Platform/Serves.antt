-- ===== src/Platform/Serves.antt =====
-- What the end of a round does to the serial port and to the terminal.
use mathlib.Core.List.{append-nil}
use rv64_emulator.Common.{◌≡◌, refl, sym, ap, ◌∙◌, arith}
use rv64_emulator.Common.{Bool, true, false, if◌then◌else◌}
use rv64_emulator.Common.{[], ◌∷◌, ◌++◌, length, some}
use rv64_emulator.Device.Uart.{Uart, putc}
use rv64_emulator.Device.Bus.{Bus}
use rv64_emulator.Platform.Devices.{PlatformDevice, uart_dev, raw_uart, replace_at}
use rv64_emulator.Platform.Terminal.{drain, send_interrupt}
use rv64_emulator.Platform.Output.{text, drain-Drained}
use rv64_emulator.Platform.Main.{Machine, with_bus, serve_terminal}

raw_uart-replace_at :
    (bus : Bus PlatformDevice) (u v : Uart)
    → raw_uart bus ≡ some u
    → raw_uart (replace_at bus 2 (uart_dev v)) ≡ some v
unfolding raw_uart
raw_uart-replace_at [] u v e = cc
raw_uart-replace_at (a ∷ []) u v e = cc
raw_uart-replace_at (a ∷ b ∷ []) u v e = cc
raw_uart-replace_at (a ∷ b ∷ c ∷ bus) u v e = refl

-- The machine after the end of a round that begins with port `u`.
pub record Serves (m : Machine) (u : Uart) (m' : Machine) (u' : Uart) : Type 0 where
  pub port : raw_uart m'.cpu.mmu.bus ≡ some u'
  pub sent : u'.tx_buffer ≡ []
  pub shown : text m'.terminal.printed ≡ text m.terminal.printed ++ text u.tx_buffer
  pub received : u'.rx_buffer ≡ u.rx_buffer ++ (if m.send_ctrl_c then 3 ∷ [] else [])
  pub answered : m'.send_ctrl_c ≡ false
  pub hart_kept : (m'.cpu.xregs ≡ m.cpu.xregs) × (m'.cpu.pc ≡ m.cpu.pc)

sent_interrupt :
    (b : Bool) (u : Uart)
    → ((send_interrupt b u).tx_buffer ≡ u.tx_buffer)
      × ((send_interrupt b u).rx_buffer ≡ u.rx_buffer ++ (if b then 3 ∷ [] else []))
unfolding send_interrupt putc
sent_interrupt true u = (refl, refl)
sent_interrupt false u = (refl, sym (append-nil u.rx_buffer))

-- Where the bus has the serial port, the end of a round is reached: the loop that drains the port
-- ends, every character to send is shown in its order but for carriage returns, none is left, and
-- an interrupt of the keyboard is given to the guest once.
pub serve_terminal-Serves :
    (m : Machine) (u : Uart)
    → raw_uart m.cpu.mmu.bus ≡ some u
    → (m' : Machine) × (u' : Uart) × (serve_terminal m ≡ some m') × Serves m u m' u'
unfolding serve_terminal
serve_terminal-Serves m u e =
    let out = drain (length u.tx_buffer) u m.terminal in
    let d = drain-Drained (length u.tx_buffer) u m.terminal (omega arith) in
    let (same_tx, more_rx) = sent_interrupt m.send_ctrl_c out.0 in
    (
      record {
        cpu =
            with_bus m.cpu
              (replace_at m.cpu.mmu.bus 2 (uart_dev (send_interrupt m.send_ctrl_c out.0)));
        terminal = out.1;
        send_ctrl_c = false;
      },
      send_interrupt m.send_ctrl_c out.0,
      rw e refl,
      record {
        port = raw_uart-replace_at m.cpu.mmu.bus u _ e;
        sent = same_tx ∙ d.sent;
        shown = d.shown;
        received = more_rx ∙ ap (λ q. q ++ (if m.send_ctrl_c then 3 ∷ [] else [])) d.kept.0;
        answered = refl;
        hart_kept = (refl, refl);
      },
    )
