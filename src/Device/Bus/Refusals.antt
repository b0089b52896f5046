-- ===== src/Device/Bus/Refusals.antt =====
-- Which addresses the bus refuses, by the windows of its devices.
use rv64_emulator.Common.{ℕ, zero, suc, ◌+◌, ◌^◌, ◌<◌, ◌≤◌, ◌≡◌, refl, arith, ◌↔◌, ◌⊎◌, inl, inr}
use rv64_emulator.Common.{List, [], ◌∷◌, get_elem?, some, done, refused, false}
use rv64_emulator.Device.Mmio.{MmioDevice, MmioDeviceNode}
use rv64_emulator.Device.Bus.{Bus, in_range, get_device_by_range, load, load_at, store}
use rv64_emulator.Device.Bus.Routing.{
  FirstAt, Nowhere, locate, first_in_range_of_first, first_in_range_of_Nowhere,
}

module _ {D : Type 0} where
  -- Every window ends below 2 ^ 64.
  abbrev pub EndsBelow : Bus D → Type 0
  EndsBelow [] = Unit {0}
  EndsBelow (node ∷ bus) = (node.base + node.size < 2 ^ 64) × EndsBelow bus

  -- The address is before or past each window.
  abbrev pub Outside : Bus D → ℕ → Type 0
  Outside [] addr = Unit {0}
  Outside (node ∷ bus) addr =
      ((addr < node.base) ⊎ (node.base + node.size ≤ addr)) × Outside bus addr

  past_node :
      (node : MmioDeviceNode D) (addr : ℕ)
      → node.base + node.size < 2 ^ 64
      → (in_range node addr ≡ false) ↔ ((addr < node.base) ⊎ (node.base + node.size ≤ addr))
  past_node node addr h = (λ e. ground (arith, e), λ e. ground (arith, e))

  Outside-Nowhere : (bus : Bus D) (addr : ℕ) → EndsBelow bus → Outside bus addr ↔ Nowhere bus addr
  Outside-Nowhere [] addr h = (λ o. tt, λ o. tt)
  Outside-Nowhere (node ∷ bus) addr h = (
    λ o. ((past_node node addr h.0).1 o.0, (Outside-Nowhere bus addr h.1).0 o.1),
    λ o. ((past_node node addr h.0).0 o.0, (Outside-Nowhere bus addr h.1).1 o.1),
  )

  -- A device that grants every access.
  abbrev granting : MmioDevice D
  granting = record {
    load = λ d off n. done ([], d);
    store = λ d off n buf. done d;
    reset = λ d. d;
  }

  first_present :
      (bus : Bus D) (addr i : ℕ)
      → FirstAt bus addr i
      → (node : MmioDeviceNode D) × (get_elem? bus i ≡ some node)
  first_present [] addr i h = absurd h
  first_present (node ∷ bus) addr zero h = (node, refl)
  first_present (node ∷ bus) addr (suc i) h = first_present bus addr i h.1

  granted :
      (bus : Bus D) (addr bytes i : ℕ)
      → FirstAt bus addr i
      → load granting bus addr bytes ≡ refused
      → ⊥
  unfolding load load_at get_device_by_range
  granted bus addr bytes i h e =
      let (node, here) = first_present bus addr i h in
      ground (arith, first_in_range_of_first bus addr 0 i h, here)

  -- An address that no device holds is refused.
  Nowhere-refused :
      (m : MmioDevice D) (bus : Bus D) (addr bytes : ℕ) (buf : List ℕ)
      → Nowhere bus addr
      → (load m bus addr bytes ≡ refused) × (store m bus addr bytes buf ≡ refused)
  unfolding load store get_device_by_range
  Nowhere-refused m bus addr bytes buf h = (
    ground (arith, first_in_range_of_Nowhere bus addr 0 h),
    ground (arith, first_in_range_of_Nowhere bus addr 0 h),
  )

  -- Where the windows of the devices end below 2 ^ 64, an address is before or past every window
  -- exactly when a load and a store of it are refused whatever the devices are; so an address in a
  -- window reaches a device.
  pub Outside-refused :
      (bus : Bus D) (addr bytes : ℕ) (buf : List ℕ)
      → EndsBelow bus
      → Outside bus addr ↔ (
          (m : MmioDevice D)
          → (load m bus addr bytes ≡ refused) × (store m bus addr bytes buf ≡ refused))
  Outside-refused bus addr bytes buf ends = (
    λ o m. Nowhere-refused m bus addr bytes buf ((Outside-Nowhere bus addr ends).0 o),
    λ refuses. elim (locate bus addr) [
      | inl (i, h) ↦ absurd (granted bus addr bytes i h (refuses granting).0)
      | inr nowhere ↦ (Outside-Nowhere bus addr ends).1 nowhere
    ],
  )
