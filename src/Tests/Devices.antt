-- ===== src/Tests/Devices.antt =====
-- Runs of the devices and of the arithmetic.
use rv64_emulator.Common.{◌↔◌, ◌≡◌, ◌^◌, refl, arith, [], ◌∷◌, inr}
use rv64_emulator.Common.{done, refused, map_access, true, false}
use rv64_emulator.Libs.Arithmetic.{
  portable_mul_unsigned_hi, mul_uint64_hi, portable_mul_unsigned_hi_lem,
}
use rv64_emulator.Device.Mmio.{MmioDeviceNode}
use rv64_emulator.Device.Dram.{Dram, load, store, dram_device}
use rv64_emulator.Device.Dram.Laws.{IsValid, load_in_range, load-store_same, load-store_apart}
use rv64_emulator.Device.Bus.{Bus, get_device_by_range, mount_device}
use rv64_emulator.Device.Bus
use rv64_emulator.Device.Bus.Routing.{Routed, load-Routed, store-Routed}
use rv64_emulator.Device.Mmio.{MmioDevice}
use rv64_emulator.Device.Bus.Refusals.{Outside, Outside-refused}
use rv64_emulator.Device.Plic.{Plic, PlicContext, new_plic, empty_context, best_below}
use rv64_emulator.Device.Plic.Laws.{IsBest, best_below-IsBest}
use rv64_emulator.Device.Uart.{Uart, UartReg}
use rv64_emulator.Device.Uart

portable_mul_unsigned_hi_example : portable_mul_unsigned_hi (2 ^ 63) 6 ≡ mul_uint64_hi (2 ^ 63) 6
portable_mul_unsigned_hi_example =
    portable_mul_unsigned_hi_lem (2 ^ 63) 6 (omega arith) (omega arith)

-- Four bytes of memory, and the same after a store.
abbrev small : Dram
small = record { size = 4; memory = 1 ∷ 2 ∷ 3 ∷ 4 ∷ [] }

abbrev written : Dram
written = record { size = 4; memory = 1 ∷ 9 ∷ 8 ∷ 4 ∷ [] }

small-IsValid : IsValid small
small-IsValid = record { whole = refl; word = omega arith }

wrote : store small 1 2 (9 ∷ 8 ∷ []) ≡ done written
unfolding store
wrote = refl

load_in_range_example : load small 1 2 ≡ done (2 ∷ 3 ∷ [], small)
load_in_range_example = load_in_range small 1 2 small-IsValid (omega arith)

load-store_same_example : load written 1 2 ≡ done (9 ∷ 8 ∷ [], written)
load-store_same_example = load-store_same small 1 2 (9 ∷ 8 ∷ []) small-IsValid wrote

load-store_apart_example :
    map_access (λ r. r.0) (load written 3 1) ≡ map_access (λ r. r.0) (load small 3 1)
load-store_apart_example =
    load-store_apart small 1 2 (9 ∷ 8 ∷ []) 3 1 small-IsValid wrote (inr (omega arith))

-- A bus with the memory at 0x1000.
abbrev bus_of : Dram → Bus Dram
bus_of d = record { base = 0x1000; size = 4; dev = d } ∷ []

abbrev second_node : MmioDeviceNode Dram
second_node = record { base = 0x1002; size = 8; dev = small }

bus_load : Bus.load dram_device (bus_of small) 0x1001 2 ≡ done (2 ∷ 3 ∷ [], bus_of small)
unfolding Bus.load Bus.load_at get_device_by_range load
bus_load = refl

bus_store : Bus.store dram_device (bus_of small) 0x1001 2 (9 ∷ 8 ∷ []) ≡ done (bus_of written)
unfolding Bus.store Bus.store_at get_device_by_range store
bus_store = refl

bus_mount :
    mount_device (bus_of small) second_node
    ≡ done (record { base = 0x1000; size = 4; dev = small } ∷ second_node ∷ [])
unfolding mount_device
bus_mount = refl

load-Routed_example :
    Routed (bus_of small) 0x1001 (bus_of small) (λ d off d'. load d off 2 ≡ done (2 ∷ 3 ∷ [], d'))
load-Routed_example = load-Routed dram_device (bus_of small) 0x1001 2 bus_load

store-Routed_example :
    Routed (bus_of small) 0x1001 (bus_of written) (λ d off d'. store d off 2 (9 ∷ 8 ∷ []) ≡ done d')
store-Routed_example = store-Routed dram_device (bus_of small) 0x1001 2 (9 ∷ 8 ∷ []) bus_store

-- One past the end of the memory.
Outside-refused_example : Outside (bus_of small) 0x1004 ↔ (
    (m : MmioDevice Dram)
    → (Bus.load m (bus_of small) 0x1004 1 ≡ refused)
      × (Bus.store m (bus_of small) 0x1004 1 (7 ∷ []) ≡ refused))
Outside-refused_example = Outside-refused (bus_of small) 0x1004 1 (7 ∷ []) (omega arith, tt)

-- Sources 1 to 3 are pending and enabled, with priorities 1, 2 and 2.
abbrev controller : Plic
controller = record (new_plic 1 true 32) { priority = 0 ∷ 1 ∷ 2 ∷ 2 ∷ []; pending = 0b1110 ∷ [] }

abbrev context : PlicContext
context = record empty_context { enable = 0b1110 ∷ [] }

best_below-IsBest_example : IsBest controller context 4 (best_below controller context 4)
best_below-IsBest_example = best_below-IsBest controller context 4

-- A serial port that has received an A.
abbrev port : Uart
port = record {
  reg = record { rx_fifo = 0; tx_fifo = 0x42; status = 5; control = 0 };
  wait_ack = false;
  rx_buffer = 0x41 ∷ [];
  tx_buffer = [];
}

-- The port once the guest has stored a word to rx_fifo.
abbrev after_write : Uart
after_write = record port {
  reg = record { rx_fifo = 7; tx_fifo = 0x42; status = 5; control = 0 };
  tx_buffer = 0x42 ∷ [];
}

port_store : Uart.store port 0 4 (7 ∷ 0 ∷ 0 ∷ 0 ∷ []) ≡ done after_write
unfolding Uart.store
port_store = refl
