-- ===== src/Platform/Held.antt =====
-- The bus of the program: each device stays at its place and in its window, whatever the guest does.
use rv64_emulator.Common.{ℕ, zero, suc, ◌≡◌, refl, arith, inl, inr, List, [], ◌∷◌}
use rv64_emulator.Common.{map_access, Access-cases, AllBytes}
use rv64_emulator.Device.Mmio.{MmioDevice, MmioDeviceNode}
use rv64_emulator.Device.Mmio.Laws.{HoldsBytes, Loaded, Stored, holds_bytes}
use rv64_emulator.Device.Bus.{Bus, bus_device}
use rv64_emulator.Device.Bus.Slots.{IsMounted, bus_device-HoldsBytes}
use rv64_emulator.Device.Dram.{Dram, dram_device}
use rv64_emulator.Device.Dram.Bytes.{OfBytes, dram_device-HoldsBytes}
use rv64_emulator.Device.Clint.{Clint, clint_device}
use rv64_emulator.Device.Clint.Bytes.{clint_device-HoldsBytes}
use rv64_emulator.Device.Clint.Bytes
use rv64_emulator.Device.Plic.{Plic, plic_device}
use rv64_emulator.Device.Plic.Bytes.{plic_device-HoldsBytes}
use rv64_emulator.Device.Plic.Bytes as PlicBytes
use rv64_emulator.Device.Uart.{Uart, uart_device}
use rv64_emulator.Device.Uart.Bytes.{uart_device-HoldsBytes}
use rv64_emulator.Platform.Devices.{
  PlatformDevice, clint_dev, plic_dev, uart_dev, dram_dev, load, store, platform_device, clint_base,
  clint_addr_space_range, plic_base, plic_addr_space_range, uart_base, uart_addr_space_range,
  dram_base_addr, dram_size,
}

-- The window of each place.
abbrev pub window : ℕ → ℕ × ℕ
window zero = (clint_base, clint_addr_space_range)
window (suc zero) = (plic_base, plic_addr_space_range)
window (suc (suc zero)) = (uart_base, uart_addr_space_range)
window (suc (suc (suc k))) = (dram_base_addr, dram_size)

-- The device of each place.
abbrev pub IsHeld : ℕ → PlatformDevice → Type 0
IsHeld zero (clint_dev d) = Bytes.IsWhole 1 d
IsHeld (suc zero) (plic_dev d) = PlicBytes.IsWhole d
IsHeld (suc (suc zero)) (uart_dev d) = Unit {0}
IsHeld (suc (suc (suc k))) (dram_dev d) = OfBytes d
IsHeld _ _ = ⊥

abbrev pub OnPlatform : Bus PlatformDevice → Type 0
OnPlatform bus = IsMounted window IsHeld 4 bus

-- A device of the program does what the device in it does.
module _ {D : Type 0} (P : D → Type 0) (Q : PlatformDevice → Type 0) (f : D → PlatformDevice)
    (h : (d : D) → P d → Q (f d)) (m : MmioDevice D) (laws : HoldsBytes m P) where
  lifted_load :
      (d : D) (addr n : ℕ)
      → P d
      → Loaded Q n (map_access (λ (out, d'). (out, f d')) (m.load d addr n))
  lifted_load d addr n p = elim (Access-cases (m.load d addr n)) [
    | inl ((out, d'), e) ↦
        let (all, size, q) = laws.load_law d addr n out d' p e in rw e (all, size, h d' q)
    | inr (inl e) ↦ rw e tt
    | inr (inr e) ↦ rw e tt
  ]

  lifted_store :
      (d : D) (addr n : ℕ) (buf : List ℕ)
      → P d
      → AllBytes buf
      → Stored Q (map_access f (m.store d addr n buf))
  lifted_store d addr n buf p b = elim (Access-cases (m.store d addr n buf)) [
    | inl (d', e) ↦ rw e (h d' (laws.store_law d addr n buf d' p b e))
    | inr (inl e) ↦ rw e tt
    | inr (inr e) ↦ rw e tt
  ]

load-Loaded :
    (k : ℕ) (d : PlatformDevice) (addr n : ℕ) → IsHeld k d → Loaded (IsHeld k) n (load d addr n)
unfolding load
load-Loaded zero (clint_dev d) addr n h =
    lifted_load (Bytes.IsWhole 1) (IsHeld 0) clint_dev (λ d p. p) (clint_device 0)
      (clint_device-HoldsBytes 0 1) d addr n h
load-Loaded (suc zero) (plic_dev d) addr n h =
    lifted_load PlicBytes.IsWhole (IsHeld 1) plic_dev (λ d p. p) plic_device plic_device-HoldsBytes
      d addr n h
load-Loaded (suc (suc zero)) (uart_dev d) addr n h =
    lifted_load (λ u. Unit {0}) (IsHeld 2) uart_dev (λ d p. p) uart_device uart_device-HoldsBytes d
      addr n h
load-Loaded (suc (suc (suc k))) (dram_dev d) addr n h =
    lifted_load OfBytes (IsHeld (suc (suc (suc k)))) dram_dev (λ d p. p) dram_device
      dram_device-HoldsBytes d addr n h
load-Loaded _ _ addr n h = absurd h

store-Stored :
    (k : ℕ) (d : PlatformDevice) (addr n : ℕ) (buf : List ℕ)
    → IsHeld k d
    → AllBytes buf
    → Stored (IsHeld k) (store d addr n buf)
unfolding store
store-Stored zero (clint_dev d) addr n buf h b =
    lifted_store (Bytes.IsWhole 1) (IsHeld 0) clint_dev (λ d p. p) (clint_device 0)
      (clint_device-HoldsBytes 0 1) d addr n buf h b
store-Stored (suc zero) (plic_dev d) addr n buf h b =
    lifted_store PlicBytes.IsWhole (IsHeld 1) plic_dev (λ d p. p) plic_device plic_device-HoldsBytes
      d addr n buf h b
store-Stored (suc (suc zero)) (uart_dev d) addr n buf h b =
    lifted_store (λ u. Unit {0}) (IsHeld 2) uart_dev (λ d p. p) uart_device uart_device-HoldsBytes d
      addr n buf h b
store-Stored (suc (suc (suc k))) (dram_dev d) addr n buf h b =
    lifted_store OfBytes (IsHeld (suc (suc (suc k)))) dram_dev (λ d p. p) dram_device
      dram_device-HoldsBytes d addr n buf h b
store-Stored _ _ addr n buf h b = absurd h

pub platform_bus-HoldsBytes : (now : ℕ) → HoldsBytes (bus_device (platform_device now)) OnPlatform
platform_bus-HoldsBytes now =
    bus_device-HoldsBytes window IsHeld (platform_device now)
      (λ k. holds_bytes (IsHeld k) (platform_device now) (load-Loaded k) (store-Stored k)) 4

-- The bus with the four devices in their places.
abbrev pub bus_of : Clint → Plic → Uart → Dram → Bus PlatformDevice
bus_of c p u d =
    record { base = clint_base; size = clint_addr_space_range; dev = clint_dev c }
    ∷ record { base = plic_base; size = plic_addr_space_range; dev = plic_dev p }
    ∷ record { base = uart_base; size = uart_addr_space_range; dev = uart_dev u }
    ∷ record { base = dram_base_addr; size = dram_size; dev = dram_dev d }
    ∷ []

pub record Holds (bus : Bus PlatformDevice) : Type 0 where
  pub clint : Clint
  pub plic : Plic
  pub uart : Uart
  pub dram : Dram
  pub is_bus : bus ≡ bus_of clint plic uart dram
  pub clint_whole : Bytes.IsWhole 1 clint
  pub plic_whole : PlicBytes.IsWhole plic
  pub dram_bytes : OfBytes dram

node_of :
    (n : MmioDeviceNode PlatformDevice) (base size : ℕ) (dev : PlatformDevice)
    → n.base ≡ base
    → n.size ≡ size
    → n.dev ≡ dev
    → n ≡ record { base = base; size = size; dev = dev }
node_of n base size dev e f g = λ i. record { base = e i; size = f i; dev = g i }

clint_held : (d : PlatformDevice) → IsHeld 0 d → (c : Clint) × (d ≡ clint_dev c) × Bytes.IsWhole 1 c
clint_held (clint_dev c) h = (c, refl, h)
clint_held _ h = absurd h

plic_held : (d : PlatformDevice) → IsHeld 1 d → (p : Plic) × (d ≡ plic_dev p) × PlicBytes.IsWhole p
plic_held (plic_dev p) h = (p, refl, h)
plic_held _ h = absurd h

uart_held : (d : PlatformDevice) → IsHeld 2 d → (u : Uart) × (d ≡ uart_dev u)
uart_held (uart_dev u) h = (u, refl)
uart_held _ h = absurd h

dram_held : (d : PlatformDevice) → IsHeld 3 d → (m : Dram) × (d ≡ dram_dev m) × OfBytes m
dram_held (dram_dev m) h = (m, refl, h)
dram_held _ h = absurd h

pub OnPlatform-Holds : (bus : Bus PlatformDevice) → OnPlatform bus → Holds bus
OnPlatform-Holds [] h = absurd (omega (arith, h.places))
OnPlatform-Holds (a ∷ []) h = absurd (omega (arith, h.places))
OnPlatform-Holds (a ∷ b ∷ []) h = absurd (omega (arith, h.places))
OnPlatform-Holds (a ∷ b ∷ c ∷ []) h = absurd (omega (arith, h.places))
OnPlatform-Holds (a ∷ b ∷ c ∷ d ∷ e ∷ bus) h = absurd (omega (arith, h.places))
OnPlatform-Holds (a ∷ b ∷ c ∷ d ∷ []) h =
    let (sa, (sb, (sc, (sd, u)))) = h.slots in
    let (clint, ea, hc) = clint_held a.dev sa.device in
    let (plic, eb, hp) = plic_held b.dev sb.device in
    let (uart, ec) = uart_held c.dev sc.device in
    let (dram, ed, hd) = dram_held d.dev sd.device in
    record {
      clint = clint;
      plic = plic;
      uart = uart;
      dram = dram;
      is_bus =
          four (node_of a _ _ _ sa.window_base sa.window_size ea)
            (node_of b _ _ _ sb.window_base sb.window_size eb)
            (node_of c _ _ _ sc.window_base sc.window_size ec)
            (node_of d _ _ _ sd.window_base sd.window_size ed);
      clint_whole = hc;
      plic_whole = hp;
      dram_bytes = hd;
    }
  where
    four :
        {a' b' c' d' : MmioDeviceNode PlatformDevice}
        → a ≡ a'
        → b ≡ b'
        → c ≡ c'
        → d ≡ d'
        → (a ∷ b ∷ c ∷ d ∷ []) ≡ (a' ∷ b' ∷ c' ∷ d' ∷ [])
    four e f g h = λ i. e i ∷ f i ∷ g i ∷ h i ∷ []

pub bus_of-OnPlatform :
    (c : Clint) (p : Plic) (u : Uart) (d : Dram)
    → Bytes.IsWhole 1 c
    → PlicBytes.IsWhole p
    → OfBytes d
    → OnPlatform (bus_of c p u d)
bus_of-OnPlatform c p u d hc hp hd = record {
  places = refl;
  slots = (
    record { window_base = refl; window_size = refl; device = hc },
    (
      record { window_base = refl; window_size = refl; device = hp },
      (
        record { window_base = refl; window_size = refl; device = tt },
        (record { window_base = refl; window_size = refl; device = hd }, tt),
      ),
    ),
  );
}
