-- ===== src/Cpu/Mmu/Keeps.antt =====
-- What the accesses of the hart keep: the two slots of the translation buffer, the index of the one
-- that is replaced next, and what the bus promises.
use mathlib.Core.Path.{subst}
use rv64_emulator.Common.{ℕ, zero, suc, ◌+◌, ◌*◌, ◌%◌, ◌^◌, ◌<◌, ◌≡◌, refl, ap, arith, ◌∙◌}
use rv64_emulator.Common.{
  List, [], ◌∷◌, length, length-set, map, Option, none, some, Bool, true, false, inl, inr,
}
use rv64_emulator.Common.{
  Access, done, refused, fault, Access-cases, Option-cases, Bool-cases, AllBytes, of_le_bytes,
  if◌then◌else◌,
}
use rv64_emulator.Device.Mmio.{MmioDevice}
use rv64_emulator.Device.Mmio.Laws.{HoldsBytes}
use rv64_emulator.Cpu.Trap.{Trap, load_access_fault, store_access_fault, instruction_access_fault}
use rv64_emulator.Cpu.Mode.{PrivilegeMode}
use rv64_emulator.Cpu.Csr.State.{State, get}
use rv64_emulator.Cpu.Csr.Layout.{satp_ppn}
use rv64_emulator.Cpu.Mmu.Entry.{Sv39TlbEntry, map_virtual_address}
use rv64_emulator.Cpu.Mmu.Sv39.{
  Sv39, tlb_size, flush_entry, flush_tlb, fill, new_entry, get_tlb_entry, page_table_walk, walk,
  visit, Visit, invalid, pointer, leaf, page_entry_index, look_up_tlb, new_sv39,
}
use rv64_emulator.Cpu.Mmu.Access.{
  Reply, ok, trapped, load_phys, store_phys, translate, load, store, fetch,
}

pub record IsValid {B : Type 0} (P : B → Type 0) (s : Sv39 B) : Type 0 where
  pub slots : length s.tlb ≡ tlb_size
  pub in_range : s.index < tlb_size
  pub bus_holds : P s.bus

length-flush :
    (vaddr asid : ℕ) (tlb : List Sv39TlbEntry)
    → length (map (flush_entry vaddr asid) tlb) ≡ length tlb
length-flush vaddr asid [] = refl
length-flush vaddr asid (e ∷ tlb) = ap suc (length-flush vaddr asid tlb)

module _ {B : Type 0} (P : B → Type 0) where
  pub flush_tlb-IsValid :
      (vaddr asid : ℕ) (s : Sv39 B) → IsValid P s → IsValid P (flush_tlb vaddr asid s)
  unfolding flush_tlb
  flush_tlb-IsValid vaddr asid s v = record {
    slots = length-flush vaddr asid s.tlb ∙ v.slots;
    in_range = v.in_range;
    bus_holds = v.bus_holds;
  }

  pub new_sv39-IsValid : (bus : B) → P bus → IsValid P (new_sv39 bus)
  unfolding new_sv39
  new_sv39-IsValid bus h = record { slots = refl; in_range = omega arith; bus_holds = h }

  -- The results that leave a valid unit behind, with a reply that satisfies `Q`.
  abbrev WalkKeeps : Access (Option (ℕ × ℕ) × B) → Type 0
  WalkKeeps (done (o, bus)) = P bus
  WalkKeeps refused = Unit {0}
  WalkKeeps fault = Unit {0}

  abbrev EntryKeeps : Access (Option Sv39TlbEntry × Sv39 B) → Type 0
  EntryKeeps (done (o, s)) = IsValid P s
  EntryKeeps refused = Unit {0}
  EntryKeeps fault = Unit {0}

  abbrev pub GoodReply : {A : Type 0} → (A → Type 0) → Reply A → Type 0
  GoodReply Q (ok a) = Q a
  GoodReply Q (trapped t) = t.val < 2 ^ 64

  abbrev pub ReplyKeeps : {A : Type 0} → (A → Type 0) → Option (Reply A × Sv39 B) → Type 0
  ReplyKeeps Q none = Unit {0}
  ReplyKeeps Q (some (r, s)) = GoodReply Q r × IsValid P s

  abbrev pub BytesOf : ℕ → List ℕ → Type 0
  BytesOf n out = AllBytes out × (length out ≡ n)

  module _ (m : MmioDevice B) (laws : HoldsBytes m P) where
    walk-Keeps : (n vaddr table : ℕ) (bus : B) → P bus → WalkKeeps (walk m n vaddr table bus)
    unfolding walk
    walk-Keeps zero vaddr table bus h = h
    walk-Keeps (suc i) vaddr table bus h =
        elim (Access-cases (m.load bus ((table + page_entry_index vaddr i * 8) % 2 ^ 64) 8)) [
          | inl ((out, bus'), e) ↦
              let h' : P bus' = (laws.load_law bus _ 8 out bus' h e).2 in
              rw (walk, e)
                (after out bus' h' (visit i (of_le_bytes out))
                  (λ next. walk-Keeps i vaddr next bus' h'))
          | inr (inl e) ↦ rw (walk, e) h
          | inr (inr e) ↦ rw (walk, e) tt
        ]
      where
        after :
            (out : List ℕ) (bus' : B)
            → P bus'
            → (v : Visit) → ((next : ℕ) → WalkKeeps (walk m i vaddr next bus'))
            → WalkKeeps (elim v [
              | invalid ↦ done (none, bus')
              | pointer next ↦ walk m i vaddr next bus'
              | leaf pte size ↦ done (some (pte, size), bus')
            ])
        after out bus' h' invalid go_on = h'
        after out bus' h' (pointer next) go_on = go_on next
        after out bus' h' (leaf pte size) go_on = h'

    page_table_walk-Keeps :
        (satp vaddr : ℕ) (bus : B) → P bus → WalkKeeps (page_table_walk m satp vaddr bus)
    unfolding page_table_walk
    page_table_walk-Keeps satp vaddr bus h =
        ground (arith, walk-Keeps 3 vaddr (get satp satp_ppn * 2 ^ 12) bus h)

    filled :
        (satp vaddr : ℕ) (s : Sv39 B) (o : Option (ℕ × ℕ)) (bus : B)
        → IsValid P s
        → P bus
        → page_table_walk m satp vaddr s.bus ≡ done (o, bus)
        → EntryKeeps (fill m satp vaddr s)
    unfolding fill
    filled satp vaddr s none bus v h e =
        rw (fill, e) (record { slots = v.slots; in_range = v.in_range; bus_holds = h })
    filled satp vaddr s (some (pte, size)) bus v h e =
        rw (fill, e)
          (record {
            slots = length-set s.tlb s.index (new_entry satp vaddr pte size) ∙ v.slots;
            in_range = omega arith;
            bus_holds = h;
          })

    fill-Keeps : (satp vaddr : ℕ) (s : Sv39 B) → IsValid P s → EntryKeeps (fill m satp vaddr s)
    unfolding fill
    fill-Keeps satp vaddr s v = elim (Access-cases (page_table_walk m satp vaddr s.bus)) [
      | inl ((o, bus), e) ↦
          filled satp vaddr s o bus v
            (subst WalkKeeps e (page_table_walk-Keeps satp vaddr s.bus v.bus_holds)) e
      | inr (inl e) ↦ rw (fill, e) tt
      | inr (inr e) ↦ rw (fill, e) tt
    ]

    get_tlb_entry-Keeps :
        (satp vaddr : ℕ) (s : Sv39 B) → IsValid P s → EntryKeeps (get_tlb_entry m satp vaddr s)
    unfolding get_tlb_entry
    get_tlb_entry-Keeps satp vaddr s v = elim (Option-cases (look_up_tlb satp vaddr s.tlb)) [
      | inl e ↦ ground (arith, e, fill-Keeps satp vaddr s v)
      | inr (entry, e) ↦ ground (arith, e)
    ]

    load_phys-Keeps :
        (t : Trap) (s : Sv39 B) (addr n : ℕ)
        → t.val < 2 ^ 64
        → IsValid P s
        → ReplyKeeps (BytesOf n) (load_phys m t s addr n)
    unfolding load_phys
    load_phys-Keeps t s addr n h v = elim (Access-cases (m.load s.bus addr n)) [
      | inl ((out, bus), e) ↦
          let law : AllBytes out × (length out ≡ n) × P bus =
            laws.load_law s.bus addr n out bus v.bus_holds e in
          rw (load_phys, e)
            ((law.0, law.1), record { slots = v.slots; in_range = v.in_range; bus_holds = law.2 })
      | inr (inl e) ↦ rw (load_phys, e) (h, v)
      | inr (inr e) ↦ rw (load_phys, e) tt
    ]

    store_phys-Keeps :
        (t : Trap) (s : Sv39 B) (addr n : ℕ) (buf : List ℕ)
        → t.val < 2 ^ 64
        → AllBytes buf
        → IsValid P s
        → ReplyKeeps (λ u. Unit {0}) (store_phys m t s addr n buf)
    unfolding store_phys
    store_phys-Keeps t s addr n buf h b v = elim (Access-cases (m.store s.bus addr n buf)) [
      | inl (bus, e) ↦
          rw (store_phys, e)
            (
              tt,
              record {
                slots = v.slots;
                in_range = v.in_range;
                bus_holds = laws.store_law s.bus addr n buf bus v.bus_holds b e;
              },
            )
      | inr (inl e) ↦ rw (store_phys, e) (h, v)
      | inr (inr e) ↦ rw (store_phys, e) tt
    ]

    translated :
        {A : Type 0} (Q : A → Type 0) (t : Trap) (allows : Sv39TlbEntry → Bool) (satp addr : ℕ)
        (s s' : Sv39 B) (o : Option Sv39TlbEntry) (go_on : Sv39 B → ℕ → Option (Reply A × Sv39 B))
        → t.val < 2 ^ 64
        → ((s1 : Sv39 B) (a : ℕ) → IsValid P s1 → ReplyKeeps Q (go_on s1 a))
        → IsValid P s'
        → get_tlb_entry m satp addr s ≡ done (o, s')
        → ReplyKeeps Q (translate m t allows satp addr s go_on)
    unfolding translate
    translated Q t allows satp addr s s' none go_on h k v e = rw (translate, e) (h, v)
    translated Q t allows satp addr s s' (some entry) go_on h k v e =
        elim (Bool-cases (allows entry)) [
          | inl f ↦ rw (translate, e, f) (k s' (map_virtual_address entry addr) v)
          | inr f ↦ rw (translate, e, f) (h, v)
        ]

    translate-Keeps :
        {A : Type 0} (Q : A → Type 0) (t : Trap) (allows : Sv39TlbEntry → Bool) (satp addr : ℕ)
        (s : Sv39 B) (go_on : Sv39 B → ℕ → Option (Reply A × Sv39 B))
        → t.val < 2 ^ 64
        → ((s1 : Sv39 B) (a : ℕ) → IsValid P s1 → ReplyKeeps Q (go_on s1 a))
        → IsValid P s
        → ReplyKeeps Q (translate m t allows satp addr s go_on)
    unfolding translate
    translate-Keeps Q t allows satp addr s go_on h k v =
        elim (Access-cases (get_tlb_entry m satp addr s)) [
          | inl ((o, s'), e) ↦
              translated Q t allows satp addr s s' o go_on h k
                (subst EntryKeeps e (get_tlb_entry-Keeps satp addr s v)) e
          | inr (inl e) ↦ rw (translate, e) tt
          | inr (inr e) ↦ rw (translate, e) tt
        ]

    either :
        {A : Type 0} (Q : A → Type 0) (b : Bool) (x y : Option (Reply A × Sv39 B))
        → ReplyKeeps Q x
        → ReplyKeeps Q y
        → ReplyKeeps Q (if b then x else y)
    either Q true x y h k = h
    either Q false x y h k = k

    -- The three accesses leave a valid unit; a granted load gives the bytes that it was asked for,
    -- and the value of a trap is a word.
    module _ (mode : PrivilegeMode) (state : State) (s : Sv39 B) (addr n : ℕ) (h : addr < 2 ^ 64)
        (v : IsValid P s) where
      pub load-Keeps : ReplyKeeps (BytesOf n) (load m mode state s addr n)
      unfolding load
      load-Keeps = either (BytesOf n) _ _ _ (load_phys-Keeps _ s addr n h v) (
          translate-Keeps (BytesOf n) _ _ _ addr s _ h
            (λ s1 a v1.
              load_phys-Keeps (record { type = load_access_fault; val = addr }) s1 a n h v1)
            v)

      pub store-Keeps :
          (buf : List ℕ)
          → AllBytes buf
          → ReplyKeeps (λ u. Unit {0}) (store m mode state s addr n buf)
      unfolding store
      store-Keeps buf b =
          either (λ u. Unit {0}) _ _ _ (store_phys-Keeps _ s addr n buf h b v)
            (translate-Keeps (λ u. Unit {0}) _ _ _ addr s _ h
              (λ s1 a v1.
                store_phys-Keeps (record { type = store_access_fault; val = addr }) s1 a n buf h b
                  v1)
              v)

      pub fetch-Keeps : ReplyKeeps (BytesOf n) (fetch m mode state s addr n)
      unfolding fetch
      fetch-Keeps = either (BytesOf n) _ _ _ (load_phys-Keeps _ s addr n h v) (
          translate-Keeps (BytesOf n) _ _ _ addr s _ h
            (λ s1 a v1.
              load_phys-Keeps (record { type = instruction_access_fault; val = addr }) s1 a n h v1)
            v)
