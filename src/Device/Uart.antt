-- ===== src/Device/Uart.antt =====
-- `class Uart`: include/device/uart.h and src/device/uart.cc. The locks make each call atomic, so a
-- call is one step on the state; the queues are lists, front first.
pub mod Laws
pub mod Bytes
use rv64_emulator.Common.{ℕ, ◌+◌, ◌-◌, ◌%◌, ◌^◌, List, [], ◌∷◌, ◌++◌, Option, none, some}
use rv64_emulator.Common.{Bool, true, false, ◌&&◌, ◌||◌, not, leb, ltb, nonzero, if◌then◌else◌}
use rv64_emulator.Common.{bit_and, bit_or, Access, done, refused, fault, or_fault, map_access}
use rv64_emulator.Common.{get_or, read_bytes, write_bytes, words_to_bytes, bytes_to_words}
use rv64_emulator.Bits.Digit.{bit_not}
use rv64_emulator.Device.Mmio.{MmioDevice}

-- `struct UartReg`: four 32-bit registers, in this order.
pub record UartReg : Type 0 where
  pub rx_fifo : ℕ
  pub tx_fifo : ℕ
  pub status : ℕ
  pub control : ℕ

pub record Uart : Type 0 where
  pub reg : UartReg
  pub wait_ack : Bool
  pub rx_buffer : List ℕ
  pub tx_buffer : List ℕ

abbrev pub tx_fifo_empty : ℕ
tx_fifo_empty = 0b0100

abbrev pub rx_fifo_valid_data : ℕ
rx_fifo_valid_data = 0b0001

abbrev pub control_rst_tx : ℕ
control_rst_tx = 1

abbrev pub control_rst_rx : ℕ
control_rst_rx = 2

-- sizeof(reg_), and the offsets of the registers that have effects.
abbrev pub reg_size : ℕ
reg_size = 16

abbrev pub rx_fifo_bias : ℕ
rx_fifo_bias = 0

abbrev pub tx_fifo_bias : ℕ
tx_fifo_bias = 4

abbrev pub control_bias : ℕ
control_bias = 12

-- The registers as they lie in memory, and back.
abbrev pub reg_to_bytes : UartReg → List ℕ
reg_to_bytes r = words_to_bytes 4 (r.rx_fifo ∷ r.tx_fifo ∷ r.status ∷ r.control ∷ [])

abbrev pub bytes_to_reg : List ℕ → UartReg
bytes_to_reg bs =
    let ws = bytes_to_words 4 4 bs in
    record {
      rx_fifo = get_or ws 0 0;
      tx_fifo = get_or ws 1 0;
      status = get_or ws 2 0;
      control = get_or ws 3 0;
    }

abbrev pub is_empty : List ℕ → Bool
is_empty [] = true
is_empty (x ∷ xs) = false

abbrev pub front : List ℕ → ℕ
front [] = 0
front (x ∷ xs) = x

abbrev pub pop : List ℕ → List ℕ
pop [] = []
pop (x ∷ xs) = xs

-- Uart::Uart
unfoldable pub new_uart : Uart
new_uart = record {
  reg = record { rx_fifo = 0; tx_fifo = 0; status = tx_fifo_empty; control = 0 };
  wait_ack = false;
  rx_buffer = [];
  tx_buffer = [];
}

-- `addr <= bias && bias <= addr + bytes`
abbrev pub touches : ℕ → ℕ → ℕ → Bool
touches bias addr bytes = leb addr bias && leb bias ((addr + bytes) % 2 ^ 64)

-- What Load does to the registers before the copy: rx_fifo shows the front of the receive queue. The
-- queue holds `char`, which is signed on the hosts that the program is built for.
abbrev pub sign_extend_char : ℕ → ℕ
sign_extend_char c = if ltb c 128 then c else c + (2 ^ 32 - 256)

unfoldable pub show_rx : Uart → UartReg
show_rx u =
    if not (is_empty u.rx_buffer)
    then record (u.reg) {
      status = bit_or u.reg.status rx_fifo_valid_data;
      rx_fifo = sign_extend_char (front u.rx_buffer);
    }
    else record (u.reg) { status = bit_and u.reg.status (bit_not 32 rx_fifo_valid_data) }

-- Uart::Load
unfoldable pub load : Uart → ℕ → ℕ → Access (List ℕ × Uart)
unfolding show_rx
load u addr bytes =
    if ltb reg_size ((addr + bytes) % 2 ^ 64)
    then refused
    else let reg = show_rx u in
      let rx = if touches rx_fifo_bias addr bytes then pop u.rx_buffer else u.rx_buffer in
      map_access (λ out. (out, record u { reg = reg; wait_ack = false; rx_buffer = rx }))
        (or_fault (read_bytes (reg_to_bytes reg) addr bytes))

-- What Store does once the bytes are in the registers.
unfoldable pub after_store : Uart → ℕ → ℕ → Uart
after_store u addr bytes =
    let tx =
      if touches tx_fifo_bias addr bytes
      then u.tx_buffer ++ (bit_and u.reg.tx_fifo 0xff ∷ [])
      else u.tx_buffer in
    let control = touches control_bias addr bytes in
    record u {
      tx_buffer = if control && nonzero (bit_and u.reg.control control_rst_tx) then [] else tx;
      rx_buffer =
          if control && nonzero (bit_and u.reg.control control_rst_rx) then [] else u.rx_buffer;
    }

-- Uart::Store
unfoldable pub store : Uart → ℕ → ℕ → List ℕ → Access Uart
unfolding after_store
store u addr bytes buffer =
    if ltb reg_size ((addr + bytes) % 2 ^ 64)
    then refused
    else map_access (λ m. after_store (record u { reg = bytes_to_reg m }) addr bytes)
        (or_fault (write_bytes (reg_to_bytes u.reg) addr buffer bytes))

-- Uart::Reset
unfoldable pub reset : Uart → Uart
reset u = record {
  reg = record (u.reg) { status = tx_fifo_empty };
  wait_ack = false;
  rx_buffer = [];
  tx_buffer = [];
}

-- Uart::Putc
unfoldable pub putc : Uart → ℕ → Uart
putc u ch = record u { rx_buffer = u.rx_buffer ++ (ch ∷ []) }

-- EOF, as the `char` that Getc returns.
abbrev pub eof_char : ℕ
eof_char = 255

-- Uart::Getc
unfoldable pub getc : Uart → ℕ × Uart
getc u =
    let rest = pop u.tx_buffer in
    let taken = record u { tx_buffer = rest; wait_ack = is_empty rest || u.wait_ack } in
    if not (is_empty u.tx_buffer) then (front u.tx_buffer, taken) else (eof_char, u)

-- Uart::TxBufferNotEmpty
unfoldable pub tx_buffer_not_empty : Uart → Bool
tx_buffer_not_empty u = not (is_empty u.tx_buffer)

-- Uart::Irq
unfoldable pub irq : Uart → Bool
irq u = not (is_empty u.rx_buffer) || u.wait_ack

abbrev pub uart_device : MmioDevice Uart
uart_device = record { load = load; store = store; reset = reset }
