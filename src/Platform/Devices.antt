-- ===== src/Platform/Devices.antt =====
-- The devices that `main` mounts, as one type of device, and their places on the bus.
use rv64_emulator.Common.{ℕ, ◌*◌, List, [], Option, none, some, get_elem?, set}
use rv64_emulator.Common.{Access, done, refused, fault, map_access}
use rv64_emulator.Device.Mmio.{MmioDevice, MmioDeviceNode}
use rv64_emulator.Device.Bus.{Bus, mount_device}
use rv64_emulator.Device.Dram.{Dram}
use rv64_emulator.Device.Dram
use rv64_emulator.Device.Clint.{Clint}
use rv64_emulator.Device.Clint
use rv64_emulator.Device.Plic.{Plic}
use rv64_emulator.Device.Plic
use rv64_emulator.Device.Uart.{Uart}
use rv64_emulator.Device.Uart

-- include/conf.h
abbrev pub dram_size : ℕ
dram_size = 64 * 1024 * 1024

abbrev pub dram_base_addr : ℕ
dram_base_addr = 0x80000000

abbrev pub plic_base : ℕ
plic_base = 0xc000000

abbrev pub plic_addr_space_range : ℕ
plic_addr_space_range = 0x4000000

abbrev pub clint_base : ℕ
clint_base = 0x2000000

abbrev pub clint_addr_space_range : ℕ
clint_addr_space_range = 0x10000

abbrev pub uart_base : ℕ
uart_base = 0x60100000

abbrev pub uart_addr_space_range : ℕ
uart_addr_space_range = 0x1000

-- What a `unique_ptr<MmioDevice>` of this program points to.
pub data PlatformDevice : Type 0 where
  clint_dev : Clint → PlatformDevice
  plic_dev : Plic → PlatformDevice
  uart_dev : Uart → PlatformDevice
  dram_dev : Dram → PlatformDevice

-- The virtual calls.
unfoldable pub load : PlatformDevice → ℕ → ℕ → Access (List ℕ × PlatformDevice)
load (clint_dev d) a n = map_access (λ (out, d'). (out, clint_dev d')) (Clint.load d a n)
load (plic_dev d) a n = map_access (λ (out, d'). (out, plic_dev d')) (Plic.load d a n)
load (uart_dev d) a n = map_access (λ (out, d'). (out, uart_dev d')) (Uart.load d a n)
load (dram_dev d) a n = map_access (λ (out, d'). (out, dram_dev d')) (Dram.load d a n)

unfoldable pub store : PlatformDevice → ℕ → ℕ → List ℕ → Access PlatformDevice
store (clint_dev d) a n buffer = map_access clint_dev (Clint.store d a n buffer)
store (plic_dev d) a n buffer = map_access plic_dev (Plic.store d a n buffer)
store (uart_dev d) a n buffer = map_access uart_dev (Uart.store d a n buffer)
store (dram_dev d) a n buffer = map_access dram_dev (Dram.store d a n buffer)

unfoldable pub reset : ℕ → PlatformDevice → PlatformDevice
reset now (clint_dev d) = clint_dev (Clint.reset now d)
reset now (plic_dev d) = plic_dev (Plic.reset d)
reset now (uart_dev d) = uart_dev (Uart.reset d)
reset now (dram_dev d) = dram_dev (Dram.reset d)

abbrev pub platform_device : ℕ → MmioDevice PlatformDevice
platform_device now = record { load = load; store = store; reset = reset now }

abbrev pub bind_access : {A C : Type 0} → Access A → (A → Access C) → Access C
bind_access (done a) f = f a
bind_access refused f = refused
bind_access fault f = fault

abbrev node : ℕ → ℕ → PlatformDevice → MmioDeviceNode PlatformDevice
node base size dev = record { base = base; size = size; dev = dev }

-- The four calls of MountDevice.
unfoldable pub make_bus : Clint → Plic → Uart → Dram → Access (Bus PlatformDevice)
unfolding mount_device
make_bus clint plic uart dram =
    bind_access (mount_device [] (node clint_base clint_addr_space_range (clint_dev clint))) λ b1.
      bind_access (mount_device b1 (node plic_base plic_addr_space_range (plic_dev plic))) λ b2.
        bind_access (mount_device b2 (node uart_base uart_addr_space_range (uart_dev uart)))
          λ b3. mount_device b3 (node dram_base_addr dram_size (dram_dev dram))

-- The bus owns the devices, and `raw_clint`, `raw_plic` and `raw_uart` point into it.
abbrev pub devices_at : Bus PlatformDevice → ℕ → Option PlatformDevice
devices_at bus i = elim (get_elem? bus i) [ none ↦ none | some n ↦ some n.dev ]

abbrev pub replace_at : Bus PlatformDevice → ℕ → PlatformDevice → Bus PlatformDevice
replace_at bus i dev = elim (get_elem? bus i) [
  | none ↦ bus
  | some n ↦ set bus i (record n { dev = dev })
]

unfoldable pub raw_clint : Bus PlatformDevice → Option Clint
raw_clint bus = elim (devices_at bus 0) [ some (clint_dev d) ↦ some d | _ ↦ none ]

unfoldable pub raw_plic : Bus PlatformDevice → Option Plic
raw_plic bus = elim (devices_at bus 1) [ some (plic_dev d) ↦ some d | _ ↦ none ]

unfoldable pub raw_uart : Bus PlatformDevice → Option Uart
raw_uart bus = elim (devices_at bus 2) [ some (uart_dev d) ↦ some d | _ ↦ none ]
