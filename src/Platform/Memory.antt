-- ===== src/Platform/Memory.antt =====
-- The bus of the program remembers what is stored in the window of its memory.
use mathlib.Core.Path.{subst}
use rv64_emulator.Common.{
  ℕ, ◌+◌, ◌-◌, ◌<◌, ◌≤◌, ◌≡◌, refl, sym, ap, ◌∙◌, arith, inl, inr, List, take, some, done, refused,
  fault, Access-cases,
}
use rv64_emulator.Device.Mmio.Laws.{Remembers}
use rv64_emulator.Device.Bus.{Bus, bus_device, get_device_by_range, load, store, load_at, store_at}
use rv64_emulator.Device.Clint.{Clint}
use rv64_emulator.Device.Plic.{Plic}
use rv64_emulator.Device.Uart.{Uart}
use rv64_emulator.Device.Dram.{Dram}
use rv64_emulator.Device.Dram
use rv64_emulator.Device.Dram.Laws.{IsValid, load-store_same}
use rv64_emulator.Platform.Devices.{PlatformDevice, platform_device, dram_base_addr, dram_size}
use rv64_emulator.Platform.Devices
use rv64_emulator.Platform.Held.{bus_of}

-- The four devices in their places, and a memory of its size.
pub record OverMemory (bus : Bus PlatformDevice) : Type 0 where
  pub clint : Clint
  pub plic : Plic
  pub uart : Uart
  pub dram : Dram
  pub is_bus : bus ≡ bus_of clint plic uart dram
  pub memory : IsValid dram

-- An address in the window of the memory.
pub record InMemory (addr : ℕ) : Type 0 where
  pub from : dram_base_addr ≤ addr
  pub below : addr < dram_base_addr + dram_size

to_memory :
    (c : Clint) (p : Plic) (u : Uart) (d : Dram) (addr : ℕ)
    → InMemory addr
    → get_device_by_range (bus_of c p u d) addr ≡ some 3
unfolding get_device_by_range
to_memory c p u d addr h = ground (arith, h.from, h.below)

done_injective : {A : Type 0} {a b : A} → done a ≡ done b → a ≡ b
done_injective e = cc

module _ (now : ℕ) (c : Clint) (p : Plic) (u : Uart) (addr n : ℕ) (h : InMemory addr) where
  -- What the bus does with a store and with a load that the memory grants.
  stored_as :
      (d d' : Dram) (buf : List ℕ)
      → Dram.store d (addr - dram_base_addr) n buf ≡ done d'
      → store (platform_device now) (bus_of c p u d) addr n buf ≡ done (bus_of c p u d')
  unfolding store store_at Devices.store
  stored_as d d' buf f = rw (store, to_memory c p u d addr h, store_at, Devices.store, f) refl

  loaded_as :
      (d : Dram) (out : List ℕ)
      → Dram.load d (addr - dram_base_addr) n ≡ done (out, d)
      → load (platform_device now) (bus_of c p u d) addr n ≡ done (out, bus_of c p u d)
  unfolding load load_at Devices.load
  loaded_as d out f = rw (load, to_memory c p u d addr h, load_at, Devices.load, f) refl

  remembers :
      (d : Dram) (buf : List ℕ) (bus' : Bus PlatformDevice)
      → IsValid d
      → store (platform_device now) (bus_of c p u d) addr n buf ≡ done bus'
      → load (platform_device now) bus' addr n ≡ done (take n buf, bus')
  unfolding store store_at Devices.store
  remembers d buf bus' v e = elim (Access-cases (Dram.store d (addr - dram_base_addr) n buf)) [
    | inl (d', f) ↦
        subst (λ b. load (platform_device now) b addr n ≡ done (take n buf, b))
          (done_injective (sym (stored_as d d' buf f) ∙ e))
          (loaded_as d' (take n buf) (load-store_same d (addr - dram_base_addr) n buf v f))
    | inr (inl f) ↦
        let bad : store (platform_device now) (bus_of c p u d) addr n buf ≡ refused =
          rw (store, to_memory c p u d addr h, store_at, Devices.store, f) refl in
        cc
    | inr (inr f) ↦
        let bad : store (platform_device now) (bus_of c p u d) addr n buf ≡ fault =
          rw (store, to_memory c p u d addr h, store_at, Devices.store, f) refl in
        cc
  ]

pub platform_bus-Remembers :
    (now : ℕ) → Remembers (bus_device (platform_device now)) OverMemory InMemory
platform_bus-Remembers now = record {
  load_after_store = λ bus addr n buf bus' o a e.
      remembers now o.clint o.plic o.uart addr n a o.dram buf bus' o.memory
        (ap (λ b. store (platform_device now) b addr n buf) (sym o.is_bus) ∙ e);
}
