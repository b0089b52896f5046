-- ===== src/Device/Uart/Bytes.antt =====
-- The serial port gives bytes.
use rv64_emulator.Common.{
  ℕ, false, if◌then◌else◌, ◌+◌, ◌%◌, ◌^◌, List, [], ◌∷◌, AllBytes, ltb, words_to_bytes-AllBytes,
}
use rv64_emulator.Device.Mmio.Laws.{
  HoldsBytes, Loaded, Stored, holds_bytes, loads_if, stores_if, copies_out, copies_in,
}
use rv64_emulator.Device.Uart.{
  Uart, UartReg, load, store, uart_device, reg_size, reg_to_bytes, show_rx, touches, rx_fifo_bias,
  pop,
}

abbrev pub Anything : Uart → Type 0
Anything u = Unit {0}

reg_to_bytes-AllBytes : (r : UartReg) → AllBytes (reg_to_bytes r)
reg_to_bytes-AllBytes r =
    words_to_bytes-AllBytes 4 (r.rx_fifo ∷ r.tx_fifo ∷ r.status ∷ r.control ∷ [])

load-Loaded : (u : Uart) (addr n : ℕ) → Anything u → Loaded Anything n (load u addr n)
unfolding load
load-Loaded u addr n v = loads_if Anything n (ltb reg_size ((addr + n) % 2 ^ 64)) _ _ tt (
    copies_out Anything (reg_to_bytes (show_rx u)) addr n
      (record u {
        reg = show_rx u;
        wait_ack = false;
        rx_buffer = if touches rx_fifo_bias addr n then pop u.rx_buffer else u.rx_buffer;
      })
      (reg_to_bytes-AllBytes (show_rx u)) tt)

store-Stored :
    (u : Uart) (addr n : ℕ) (buf : List ℕ)
    → Anything u
    → AllBytes buf
    → Stored Anything (store u addr n buf)
unfolding store
store-Stored u addr n buf v b =
    stores_if Anything (ltb reg_size ((addr + n) % 2 ^ 64)) _ _ tt (copies_in Anything _ _ λ m. tt)

pub uart_device-HoldsBytes : HoldsBytes uart_device Anything
uart_device-HoldsBytes = holds_bytes Anything uart_device load-Loaded store-Stored
