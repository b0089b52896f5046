-- ===== src/Device/Bus.antt =====
-- `class Bus`: include/device/bus.h and src/device/bus.cc, over any kind of device. The array of
-- nodes is the list of those in use.
pub mod Routing
pub mod Refusals
pub mod Slots
use rv64_emulator.Common.{ℕ, zero, suc, ◌+◌, ◌-◌, ◌%◌, ◌^◌, List, [], ◌∷◌, ◌++◌, map, length}
use rv64_emulator.Common.{get_elem?, set, Option, none, some, Bool, ◌&&◌, leb, ltb, if◌then◌else◌}
use rv64_emulator.Common.{Access, done, refused, fault, map_access}
use rv64_emulator.Device.Mmio.{MmioDevice, MmioDeviceNode}

-- kMaxMmioDevicesNum
abbrev pub max_mmio_devices_num : ℕ
max_mmio_devices_num = 16

abbrev pub Bus : Type 0 → Type 0
Bus D = List (MmioDeviceNode D)

-- `base <= addr && addr < base + size`, the sum on 64 bits.
abbrev pub in_range : {D : Type 0} → MmioDeviceNode D → ℕ → Bool
in_range node addr = leb node.base addr && ltb addr ((node.base + node.size) % 2 ^ 64)

-- Bus::MountDevice. A seventeenth device would be written past the array.
unfoldable pub mount_device : {D : Type 0} → Bus D → MmioDeviceNode D → Access (Bus D)
mount_device bus node =
    if ltb (length bus) max_mmio_devices_num then done (bus ++ (node ∷ [])) else fault

-- Bus::GetDeviceByRange, from index `i`; `none` is -1.
abbrev pub first_in_range : {D : Type 0} → ℕ → Bus D → ℕ → Option ℕ
first_in_range i [] addr = none
first_in_range i (node ∷ bus) addr =
    if in_range node addr then some i else first_in_range (suc i) bus addr

unfoldable pub get_device_by_range : {D : Type 0} → Bus D → ℕ → Option ℕ
get_device_by_range bus addr = first_in_range 0 bus addr

module _ {D : Type 0} (m : MmioDevice D) where
  -- What `device_[i]` answers to a load, and the bus with that device in its new state.
  unfoldable pub load_at : Bus D → ℕ → ℕ → ℕ → Access (List ℕ × Bus D)
  load_at bus i addr bytes = elim (get_elem? bus i) [
    | none ↦ fault
    | some node ↦
        map_access (λ (out, dev). (out, set bus i (record node { dev = dev })))
          (m.load node.dev (addr - node.base) bytes)
  ]

  -- Bus::Load
  unfoldable pub load : Bus D → ℕ → ℕ → Access (List ℕ × Bus D)
  load bus addr bytes = elim (get_device_by_range bus addr) [
    | none ↦ refused
    | some i ↦ load_at bus i addr bytes
  ]

  unfoldable pub store_at : Bus D → ℕ → ℕ → ℕ → List ℕ → Access (Bus D)
  store_at bus i addr bytes buffer = elim (get_elem? bus i) [
    | none ↦ fault
    | some node ↦
        map_access (λ dev. set bus i (record node { dev = dev }))
          (m.store node.dev (addr - node.base) bytes buffer)
  ]

  -- Bus::Store
  unfoldable pub store : Bus D → ℕ → ℕ → List ℕ → Access (Bus D)
  store bus addr bytes buffer = elim (get_device_by_range bus addr) [
    | none ↦ refused
    | some i ↦ store_at bus i addr bytes buffer
  ]

  -- Bus::Reset
  unfoldable pub reset : Bus D → Bus D
  reset [] = []
  reset (node ∷ bus) = record node { dev = m.reset node.dev } ∷ reset bus

  -- `class Bus : public MmioDevice`
  abbrev pub bus_device : MmioDevice (Bus D)
  bus_device = record { load = load; store = store; reset = reset }
