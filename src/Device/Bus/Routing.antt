-- ===== src/Device/Bus/Routing.antt =====
-- An address goes to the first mounted device that holds it, and to no other.
use rv64_emulator.Common.{
  ℕ, zero, suc, ◌+◌, ◌-◌, ◌≡◌, refl, ap, sym, ◌∙◌, arith, ◌↔◌, if◌then◌else◌,
}
use rv64_emulator.Common.{List, [], ◌∷◌, ◌++◌, length, get_elem?, set, none, some, ◌⊎◌}
use rv64_emulator.Common.{true, false, inl, inr, Bool-cases, Access-cases, Option-cases}
use rv64_emulator.Common.{done}
use mathlib.Core.Path.{subst}
use Prim.Native.Nat.add
use rv64_emulator.Device.Mmio.{MmioDevice, MmioDeviceNode}
use rv64_emulator.Device.Bus.{
  Bus, in_range, first_in_range, get_device_by_range, mount_device, load, load_at, store, store_at,
}

module _ {D : Type 0} where
  -- Index `i` is the first at which the bus holds the address.
  abbrev pub FirstAt : Bus D → ℕ → ℕ → Type 0
  FirstAt [] addr i = ⊥
  FirstAt (node ∷ bus) addr zero = in_range node addr ≡ true
  FirstAt (node ∷ bus) addr (suc i) = (in_range node addr ≡ false) × FirstAt bus addr i

  -- No device holds the address.
  abbrev pub Nowhere : Bus D → ℕ → Type 0
  Nowhere [] addr = Unit
  Nowhere (node ∷ bus) addr = (in_range node addr ≡ false) × Nowhere bus addr

  pub first_in_range_of_first :
      (bus : Bus D) (addr k i : ℕ) → FirstAt bus addr i → first_in_range k bus addr ≡ some (k + i)
  first_in_range_of_first [] addr k i h = absurd h
  first_in_range_of_first (node ∷ bus) addr k zero h = rw h (ap some (omega arith))
  first_in_range_of_first (node ∷ bus) addr k (suc i) h =
      rw h.0 (first_in_range_of_first bus addr (suc k) i h.1 ∙ ap some (omega arith))

  pub first_in_range_of_Nowhere :
      (bus : Bus D) (addr k : ℕ) → Nowhere bus addr → first_in_range k bus addr ≡ none
  first_in_range_of_Nowhere [] addr k h = refl
  first_in_range_of_Nowhere (node ∷ bus) addr k h =
      rw h.0 (first_in_range_of_Nowhere bus addr (suc k) h.1)

  -- Some device is the first, or there is none.
  pub locate : (bus : Bus D) (addr : ℕ) → ((i : ℕ) × FirstAt bus addr i) ⊎ Nowhere bus addr
  locate [] addr = inr tt
  locate (node ∷ bus) addr = elim (Bool-cases (in_range node addr)) [
    | inl here ↦ inl (0, here)
    | inr not_here ↦ elim (locate bus addr) [
      | inl (i, h) ↦ inl (suc i, (not_here, h))
      | inr none_here ↦ inr (not_here, none_here)
    ]
  ]

  -- The search finds an index exactly when it is the first that holds the address.
  get_device_by_range_first :
      (bus : Bus D) (addr i : ℕ) → (get_device_by_range bus addr ≡ some i) ↔ FirstAt bus addr i
  unfolding get_device_by_range
  get_device_by_range_first bus addr i = (
    λ e. elim (locate bus addr) [
      | inl (j, h) ↦
          subst (FirstAt bus addr) (ground (arith, first_in_range_of_first bus addr 0 j h)) h
      | inr no_dev ↦ cc (e, first_in_range_of_Nowhere bus addr 0 no_dev)
    ],
    λ h. first_in_range_of_first bus addr 0 i h ∙ ap some (add.zero i),
  )

  -- The same device ranges, in the same order.
  abbrev pub SameRanges : Bus D → Bus D → Type 0
  SameRanges [] [] = Unit
  SameRanges [] (n ∷ b) = ⊥
  SameRanges (n ∷ a) [] = ⊥
  SameRanges (n ∷ a) (n' ∷ b) = (n.base ≡ n'.base) × (n.size ≡ n'.size) × SameRanges a b

  SameRanges-refl : (bus : Bus D) → SameRanges bus bus
  SameRanges-refl [] = tt
  SameRanges-refl (n ∷ bus) = (refl, refl, SameRanges-refl bus)

  set-SameRanges :
      (bus : Bus D) (i : ℕ) (node : MmioDeviceNode D) (dev : D)
      → get_elem? bus i ≡ some node
      → SameRanges bus (set bus i (record node { dev = dev }))
  set-SameRanges [] i node dev e = tt
  set-SameRanges (n ∷ bus) zero node dev e = ground (arith, SameRanges-refl bus)
  set-SameRanges (n ∷ bus) (suc i) node dev e = (refl, refl, set-SameRanges bus i node dev e)

  first_in_range_same :
      (a b : Bus D) (addr k : ℕ)
      → SameRanges a b
      → first_in_range k a addr ≡ first_in_range k b addr
  first_in_range_same [] [] addr k h = refl
  first_in_range_same [] (n ∷ b) addr k h = absurd h
  first_in_range_same (n ∷ a) [] addr k h = absurd h
  first_in_range_same (n ∷ a) (n' ∷ b) addr k h =
      ground (arith, first_in_range_same a b addr (suc k) h.2)

  -- A new device is mounted behind the others: it gets only the addresses that none of them holds.
  first_in_range_mounted :
      (bus : Bus D) (node : MmioDeviceNode D) (addr k : ℕ)
      → first_in_range k (bus ++ (node ∷ [])) addr ≡ elim (first_in_range k bus addr) [
        | some i ↦ some i
        | none ↦ if in_range node addr then some (k + length bus) else none
      ]
  first_in_range_mounted [] node addr k = ground arith
  first_in_range_mounted (n ∷ bus) node addr k =
      ground (arith, first_in_range_mounted bus node addr (suc k))

  -- After a mount an address goes where it went before, and to the new device only if no earlier
  -- one holds it.
  get_device_by_range-mount_device :
      (bus : Bus D) (node : MmioDeviceNode D) (addr : ℕ) {bus' : Bus D}
      → mount_device bus node ≡ done bus'
      → get_device_by_range bus' addr ≡ elim (get_device_by_range bus addr) [
        | some i ↦ some i
        | none ↦ if in_range node addr then some (length bus) else none
      ]
  unfolding mount_device get_device_by_range
  get_device_by_range-mount_device bus node addr e =
      ground (arith, first_in_range_mounted bus node addr 0)

-- What a granted access did: the device at `i` answered at the offset from its base, and only it
-- changed.
pub record Routed {D : Type 0} (bus : Bus D) (addr : ℕ) (bus' : Bus D) (answer : D → ℕ → D → Type 0)
    : Type 0 where
  pub index : ℕ
  pub node : MmioDeviceNode D
  pub dev : D
  pub first : FirstAt bus addr index
  pub present : get_elem? bus index ≡ some node
  pub answers : answer node.dev (addr - node.base) dev
  pub only : bus' ≡ set bus index (record node { dev = dev })

module _ {D : Type 0} (m : MmioDevice D) where
  -- A granted load is the answer of the first device that holds the address, asked at the offset
  -- from its base; that device alone changes.
  pub load-Routed :
      (bus : Bus D) (addr bytes : ℕ) {out : List ℕ} {bus' : Bus D}
      → load m bus addr bytes ≡ done (out, bus')
      → Routed bus addr bus' (λ d off d'. m.load d off bytes ≡ done (out, d'))
  unfolding load load_at
  load-Routed bus addr bytes e = elim (Option-cases (get_device_by_range bus addr)) [
    | inl missing ↦ ground arith
    | inr (i, found) ↦ elim (Option-cases (get_elem? bus i)) [
      | inl missing ↦ ground arith
      | inr (node, here) ↦ elim (Access-cases (m.load node.dev (addr - node.base) bytes)) [
        | inl ((out', dev), answer) ↦ record {
          index = i;
          node = node;
          dev = dev;
          first = (get_device_by_range_first bus addr i).0 found;
          present = here;
          answers = ground arith;
          only = ground arith;
        }
        | inr (inl no_answer) ↦ ground arith
        | inr (inr no_answer) ↦ ground arith
      ]
    ]
  ]

  -- The same for a store.
  pub store-Routed :
      (bus : Bus D) (addr bytes : ℕ) (buf : List ℕ) {bus' : Bus D}
      → store m bus addr bytes buf ≡ done bus'
      → Routed bus addr bus' (λ d off d'. m.store d off bytes buf ≡ done d')
  unfolding store store_at
  store-Routed bus addr bytes buf e = elim (Option-cases (get_device_by_range bus addr)) [
    | inl missing ↦ ground arith
    | inr (i, found) ↦ elim (Option-cases (get_elem? bus i)) [
      | inl missing ↦ ground arith
      | inr (node, here) ↦ elim (Access-cases (m.store node.dev (addr - node.base) bytes buf)) [
        | inl (dev, answer) ↦ record {
          index = i;
          node = node;
          dev = dev;
          first = (get_device_by_range_first bus addr i).0 found;
          present = here;
          answers = answer;
          only = ground arith;
        }
        | inr (inl no_answer) ↦ ground arith
        | inr (inr no_answer) ↦ ground arith
      ]
    ]
  ]

  -- After a granted load or store every address is routed as before.
  Routed-stable :
      (bus : Bus D) (addr a : ℕ) {bus' : Bus D} (answer : D → ℕ → D → Type 0)
      → Routed bus addr bus' answer
      → get_device_by_range bus' a ≡ get_device_by_range bus a
  unfolding get_device_by_range
  Routed-stable bus addr a answer r =
      rw r.only
        (sym (first_in_range_same bus _ a 0 (set-SameRanges bus r.index r.node r.dev r.present)))
