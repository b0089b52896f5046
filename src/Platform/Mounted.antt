-- ===== src/Platform/Mounted.antt =====
-- The memory map of the bus that `main` mounts.
use rv64_emulator.Common.{
  ℕ, ◌+◌, ◌≡◌, refl, arith, Option, some, none, done, leb, ltb, ◌&&◌, if◌then◌else◌,
}
use rv64_emulator.Device.Bus.{Bus, get_device_by_range, mount_device}
use rv64_emulator.Device.Clint.{Clint}
use rv64_emulator.Device.Plic.{Plic}
use rv64_emulator.Device.Uart.{Uart}
use rv64_emulator.Device.Dram.{Dram}
use rv64_emulator.Platform.Devices.{
  PlatformDevice, make_bus, raw_clint, raw_plic, raw_uart, clint_base, clint_addr_space_range,
  plic_base, plic_addr_space_range, uart_base, uart_addr_space_range, dram_base_addr, dram_size,
}

-- The window of `size` bytes at `base` has the address.
abbrev pub has : ℕ → ℕ → ℕ → Option ℕ → Option ℕ → Option ℕ
has base size addr here elsewhere =
    if leb base addr && ltb addr (base + size) then here else elsewhere

-- The place of the device for an address, windows from the highest down.
abbrev pub memory_map : ℕ → Option ℕ
memory_map addr = has dram_base_addr dram_size addr (some 3) (
    has uart_base uart_addr_space_range addr (some 2) (
      has plic_base plic_addr_space_range addr (some 1)
        (has clint_base clint_addr_space_range addr (some 0) none)))

-- The four devices are mounted, the CLINT, the PLIC and the serial port are where the program points
-- to them, and every address goes to the one device whose window has it, or to none.
pub make_bus-mounted :
    (clint : Clint) (plic : Plic) (uart : Uart) (dram : Dram)
    → (bus : Bus PlatformDevice) × (make_bus clint plic uart dram ≡ done bus)
      × (raw_clint bus ≡ some clint)
      × (raw_plic bus ≡ some plic)
      × (raw_uart bus ≡ some uart)
      × ((addr : ℕ) → get_device_by_range bus addr ≡ memory_map addr)
unfolding make_bus mount_device raw_clint raw_plic raw_uart get_device_by_range
make_bus-mounted clint plic uart dram = (_, refl, refl, refl, refl, λ addr. ground arith)
