-- ===== src/Device/Uart/Laws.antt =====
-- The queues of the serial port, seen by the guest that reads and writes its registers.
use rv64_emulator.Common.{ℕ, ◌≡◌, arith}
use rv64_emulator.Common.{List, [], ◌∷◌, ◌++◌, done, le_bytes}
use rv64_emulator.Common.{bit_and}
use rv64_emulator.Device.Uart.{Uart, load, store, show_rx, after_store, sign_extend_char}

-- A word read of rx_fifo returns the oldest received character and removes it.
load_rx_fifo :
    (u : Uart) (c : ℕ) (rest : List ℕ) {out : List ℕ} {u' : Uart}
    → u.rx_buffer ≡ c ∷ rest
    → load u 0 4 ≡ done (out, u')
    → (out ≡ le_bytes 4 (sign_extend_char c)) × (u'.rx_buffer ≡ rest) × (u'.tx_buffer ≡ u.tx_buffer)
unfolding load show_rx
load_rx_fifo u c rest q e = ground arith

-- A four-byte store to rx_fifo ends where tx_fifo begins, which the test takes for a write of
-- tx_fifo: the byte last written there is sent again.
store_rx_fifo_sends :
    (u : Uart) (buf : List ℕ) {u' : Uart}
    → store u 0 4 buf ≡ done u'
    → u'.tx_buffer ≡ u.tx_buffer ++ (bit_and u'.reg.tx_fifo 0xff ∷ [])
unfolding store after_store
store_rx_fifo_sends u buf e = ground arith
