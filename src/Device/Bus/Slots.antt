-- ===== src/Device/Bus/Slots.antt =====
-- A bus on which each place has a window of its own and a device with a law of its own.
use rv64_emulator.Common.{
  ℕ, zero, suc, ◌+◌, ◌-◌, ◌≡◌, ap, sym, ◌∙◌, arith, inl, inr, Option-cases, Access-cases,
}
use rv64_emulator.Common.{List, [], ◌∷◌, length, get_elem?, set, length-set, some, AllBytes}
use native.Mathlib.Nat.{add-zero, zero-add}
use mathlib.Core.Path.{subst}
use rv64_emulator.Device.Mmio.{MmioDevice, MmioDeviceNode}
use rv64_emulator.Device.Mmio.Laws.{HoldsBytes, Loaded, Stored, holds_bytes}
use rv64_emulator.Device.Bus.{Bus, get_device_by_range, load, load_at, store, store_at, bus_device}

some_injective : {A : Type 0} {a b : A} → some a ≡ some b → a ≡ b
some_injective e = cc

next : (k i : ℕ) → suc k + i ≡ k + suc i
next k i = omega arith

module _ {D : Type 0} (W : ℕ → ℕ × ℕ) (Q : ℕ → D → Type 0) where
  -- The node at place `k`.
  pub record IsSlot (k : ℕ) (node : MmioDeviceNode D) : Type 0 where
    pub window_base : node.base ≡ (W k).0
    pub window_size : node.size ≡ (W k).1
    pub device : Q k node.dev

  -- All nodes, from place `k` on.
  abbrev pub Slots : ℕ → Bus D → Type 0
  Slots k [] = Unit {0}
  Slots k (node ∷ bus) = IsSlot k node × Slots (suc k) bus

  -- `n` nodes, each in its place.
  pub record IsMounted (n : ℕ) (bus : Bus D) : Type 0 where
    pub places : length bus ≡ n
    pub slots : Slots 0 bus

  pub nth_place :
      (k : ℕ) (bus : Bus D) (i : ℕ) (node : MmioDeviceNode D)
      → Slots k bus
      → get_elem? bus i ≡ some node
      → IsSlot (k + i) node
  nth_place k [] i node h e = ground arith
  nth_place k (x ∷ bus) zero node h e =
      subst (IsSlot (k + 0)) (some_injective e) (subst (λ j. IsSlot j x) (sym (add-zero k)) h.0)
  nth_place k (x ∷ bus) (suc i) node h e =
      subst (λ j. IsSlot j node) (next k i) (nth_place (suc k) bus i node h.1 e)

  pub set-Slots :
      (k : ℕ) (bus : Bus D) (i : ℕ) (node : MmioDeviceNode D) (dev : D)
      → Slots k bus
      → get_elem? bus i ≡ some node
      → Q (k + i) dev
      → Slots k (set bus i (record node { dev = dev }))
  set-Slots k [] i node dev h e q = tt
  set-Slots k (x ∷ bus) zero node dev h e q =
      let same : x ≡ node = some_injective e in
      (
        record {
          window_base = ap (λ x. x.base) (sym same) ∙ h.0.window_base;
          window_size = ap (λ x. x.size) (sym same) ∙ h.0.window_size;
          device = subst (λ j. Q j dev) (add-zero k) q;
        },
        h.1,
      )
  set-Slots k (x ∷ bus) (suc i) node dev h e q =
      (h.0, set-Slots (suc k) bus i node dev h.1 e (subst (λ j. Q j dev) (sym (next k i)) q))

  module _ (m : MmioDevice D) (laws : (k : ℕ) → HoldsBytes m (Q k)) (n : ℕ) where
    put_back :
        (bus : Bus D) (i : ℕ) (node : MmioDeviceNode D) (dev : D)
        → IsMounted n bus
        → get_elem? bus i ≡ some node
        → Q i dev
        → IsMounted n (set bus i (record node { dev = dev }))
    put_back bus i node dev h e q = record {
      places = length-set bus i (record node { dev = dev }) ∙ h.places;
      slots = set-Slots 0 bus i node dev h.slots e (subst (λ j. Q j dev) (sym (zero-add i)) q);
    }

    device_at :
        (bus : Bus D) (i : ℕ) (node : MmioDeviceNode D)
        → IsMounted n bus
        → get_elem? bus i ≡ some node
        → Q i node.dev
    device_at bus i node h e =
        subst (λ j. Q j node.dev) (zero-add i) (nth_place 0 bus i node h.slots e).device

    load_at-Loaded :
        (bus : Bus D) (i addr bytes : ℕ)
        → IsMounted n bus
        → Loaded (IsMounted n) bytes (load_at m bus i addr bytes)
    unfolding load_at
    load_at-Loaded bus i addr bytes h = elim (Option-cases (get_elem? bus i)) [
      | inl e ↦ rw (load_at, e) tt
      | inr (node, e) ↦ elim (Access-cases (m.load node.dev (addr - node.base) bytes)) [
        | inl ((out, dev), f) ↦
            let (all, size, q) =
              (laws i).load_law node.dev _ bytes out dev (device_at bus i node h e) f in
            rw (load_at, e, f) (all, size, put_back bus i node dev h e q)
        | inr (inl f) ↦ rw (load_at, e, f) tt
        | inr (inr f) ↦ rw (load_at, e, f) tt
      ]
    ]

    store_at-Stored :
        (bus : Bus D) (i addr bytes : ℕ) (buf : List ℕ)
        → IsMounted n bus
        → AllBytes buf
        → Stored (IsMounted n) (store_at m bus i addr bytes buf)
    unfolding store_at
    store_at-Stored bus i addr bytes buf h b = elim (Option-cases (get_elem? bus i)) [
      | inl e ↦ rw (store_at, e) tt
      | inr (node, e) ↦ elim (Access-cases (m.store node.dev (addr - node.base) bytes buf)) [
        | inl (dev, f) ↦
            rw (store_at, e, f)
              (put_back bus i node dev h e
                ((laws i).store_law node.dev _ bytes buf dev (device_at bus i node h e) b f))
        | inr (inl f) ↦ rw (store_at, e, f) tt
        | inr (inr f) ↦ rw (store_at, e, f) tt
      ]
    ]

    load-Loaded :
        (bus : Bus D) (addr bytes : ℕ)
        → IsMounted n bus
        → Loaded (IsMounted n) bytes (load m bus addr bytes)
    unfolding load
    load-Loaded bus addr bytes h = elim (Option-cases (get_device_by_range bus addr)) [
      | inl e ↦ rw (load, e) tt
      | inr (i, e) ↦ rw (load, e) (load_at-Loaded bus i addr bytes h)
    ]

    store-Stored :
        (bus : Bus D) (addr bytes : ℕ) (buf : List ℕ)
        → IsMounted n bus
        → AllBytes buf
        → Stored (IsMounted n) (store m bus addr bytes buf)
    unfolding store
    store-Stored bus addr bytes buf h b = elim (Option-cases (get_device_by_range bus addr)) [
      | inl e ↦ rw (store, e) tt
      | inr (i, e) ↦ rw (store, e) (store_at-Stored bus i addr bytes buf h b)
    ]

    pub bus_device-HoldsBytes : HoldsBytes (bus_device m) (IsMounted n)
    bus_device-HoldsBytes = holds_bytes (IsMounted n) (bus_device m) load-Loaded store-Stored
