-- ===== src/Cpu/Mmu/Sv39/Tlb.antt =====
-- The translation buffer: what a flush removes, and that a translation that succeeded is cached.
use mathlib.Core.Path.{subst}
use rv64_emulator.Common.{
  ℕ, zero, suc, ◌+◌, ◌<◌, ◌≡◌, refl, arith, List, [], ◌∷◌, map, length, set, Option, none, some,
}
use rv64_emulator.Common.{true, ◌==◌, ==_self, Bool-cases, inl, inr, Option-cases, not}
use rv64_emulator.Common.{Access, done, refused, fault, of_le_bytes, ◌*◌, ◌%◌, ◌^◌}
use rv64_emulator.Device.Mmio.{MmioDevice}
use rv64_emulator.Cpu.Csr.State.{get}
use rv64_emulator.Cpu.Csr.Layout.{satp_asid, satp_mode}
use rv64_emulator.Cpu.Mmu.Entry.{Sv39TlbEntry, get_tlb_tag}
use rv64_emulator.Cpu.Mmu.Sv39.{
  Sv39, matches, look_up_tlb, flush_entry, flush_tlb, new_entry, fill, get_tlb_entry,
  page_table_walk, is_legal_address, tlb_size, walk, visit, Visit, invalid, pointer, leaf,
  page_entry_index,
}

flush_address_entries :
    (satp vaddr : ℕ) (tlb : List Sv39TlbEntry)
    → look_up_tlb satp vaddr (map (flush_entry vaddr 0) tlb) ≡ none
unfolding look_up_tlb matches flush_entry
flush_address_entries satp vaddr [] = refl
flush_address_entries satp vaddr (e ∷ tlb) = ground (arith, flush_address_entries satp vaddr tlb)

flush_all_entries :
    (satp vaddr : ℕ) (tlb : List Sv39TlbEntry)
    → look_up_tlb satp vaddr (map (flush_entry 0 0) tlb) ≡ none
unfolding look_up_tlb matches flush_entry
flush_all_entries satp vaddr [] = refl
flush_all_entries satp vaddr (e ∷ tlb) = ground (arith, flush_all_entries satp vaddr tlb)

-- After a flush with ASID 0 the buffer has no entry for the flushed address, in any address space,
-- and after one with address 0 as well none for any address.
pub look_up_tlb-flush_tlb :
    {B : Type 0} (s : Sv39 B) (satp vaddr : ℕ)
    → (look_up_tlb satp vaddr (flush_tlb vaddr 0 s).tlb ≡ none)
      × (look_up_tlb satp vaddr (flush_tlb 0 0 s).tlb ≡ none)
unfolding flush_tlb
look_up_tlb-flush_tlb s satp vaddr =
    (flush_address_entries satp vaddr s.tlb, flush_all_entries satp vaddr s.tlb)

-- Where nothing matched, an entry that matches is the one found wherever it is put.
look_up_set :
    (satp vaddr i : ℕ) (tlb : List Sv39TlbEntry) (e : Sv39TlbEntry)
    → i < length tlb
    → matches satp vaddr e ≡ true
    → look_up_tlb satp vaddr tlb ≡ none
    → look_up_tlb satp vaddr (set tlb i e) ≡ some e
unfolding look_up_tlb
look_up_set satp vaddr i [] e h m n = absurd (omega arith)
look_up_set satp vaddr zero (x ∷ tlb) e h m n = rw m refl
look_up_set satp vaddr (suc i) (x ∷ tlb) e h m n = ground (arith, look_up_set satp vaddr i tlb e)

new_entry-matches :
    (satp vaddr pte size : ℕ) → 0 < size → matches satp vaddr (new_entry satp vaddr pte size) ≡ true
unfolding matches new_entry
new_entry-matches satp vaddr pte size z =
    ground (arith, ==_self (get satp satp_asid), ==_self (get_tlb_tag vaddr size))

abbrev LeafSized : Visit → Type 0
LeafSized invalid = Unit {0}
LeafSized (pointer next) = Unit {0}
LeafSized (leaf pte size) = 0 < size

visit_sized : (n pte : ℕ) → LeafSized (visit n pte)
unfolding visit
visit_sized n pte = ground arith

module _ {B : Type 0} (m : MmioDevice B) where
  -- A leaf that a walk gives has a page size above 0, which marks a used entry of the buffer.
  abbrev Sized : Access (Option (ℕ × ℕ) × B) → Type 0
  Sized (done (some (pte, size), bus)) = 0 < size
  Sized (done (none, bus)) = Unit {0}
  Sized refused = Unit {0}
  Sized fault = Unit {0}

  -- One level, when the levels below give such leaves.
  abbrev after_visit : ℕ → ℕ → B → Visit → Access (Option (ℕ × ℕ) × B)
  after_visit n vaddr bus v = elim v [
    | invalid ↦ done (none, bus)
    | pointer next ↦ walk m n vaddr next bus
    | leaf pte size ↦ done (some (pte, size), bus)
  ]

  after_visit-Sized :
      (n vaddr : ℕ) (bus : B) (v : Visit)
      → ((next : ℕ) → Sized (walk m n vaddr next bus))
      → LeafSized v
      → Sized (after_visit n vaddr bus v)
  after_visit-Sized n vaddr bus invalid below h = tt
  after_visit-Sized n vaddr bus (pointer next) below h = below next
  after_visit-Sized n vaddr bus (leaf pte size) below h = h

  after_load-Sized :
      (n vaddr : ℕ) (bus : B) (r : Access (List ℕ × B))
      → ((next : ℕ) (bus' : B) → Sized (walk m n vaddr next bus'))
      → Sized (elim r [
        | refused ↦ done (none, bus)
        | fault ↦ fault
        | done (bytes, bus') ↦ after_visit n vaddr bus' (visit n (of_le_bytes bytes))
      ])
  after_load-Sized n vaddr bus refused below = tt
  after_load-Sized n vaddr bus fault below = tt
  after_load-Sized n vaddr bus (done (bytes, bus')) below =
      after_visit-Sized n vaddr bus' (visit n (of_le_bytes bytes)) (λ next. below next bus')
        (visit_sized n (of_le_bytes bytes))

  walk-Sized : (n vaddr table : ℕ) (bus : B) → Sized (walk m n vaddr table bus)
  unfolding walk
  walk-Sized zero vaddr table bus = tt
  walk-Sized (suc n) vaddr table bus =
      after_load-Sized n vaddr bus (m.load bus ((table + page_entry_index vaddr n * 8) % 2 ^ 64) 8)
        (λ next bus'. walk-Sized n vaddr next bus')

  page_table_walk-Sized : (satp vaddr : ℕ) (bus : B) → Sized (page_table_walk m satp vaddr bus)
  unfolding page_table_walk
  page_table_walk-Sized satp vaddr bus = elim (Bool-cases (not (get satp satp_mode == 8))) [
    | inl e ↦ rw e tt
    | inr e ↦ rw e (walk-Sized 3 vaddr _ bus)
  ]

  -- A translation that succeeded for an address and a satp: the same lookup finds its entry.
  abbrev Cached : ℕ → ℕ → Access (Option Sv39TlbEntry × Sv39 B) → Type 0
  Cached satp vaddr (done (some e, s)) = look_up_tlb satp vaddr s.tlb ≡ some e
  Cached satp vaddr (done (none, s)) = Unit {0}
  Cached satp vaddr refused = Unit {0}
  Cached satp vaddr fault = Unit {0}

  fill-Cached :
      (satp vaddr : ℕ) (s : Sv39 B)
      → s.index < length s.tlb
      → look_up_tlb satp vaddr s.tlb ≡ none
      → Cached satp vaddr (fill m satp vaddr s)
  unfolding fill
  fill-Cached satp vaddr s h n =
      go (page_table_walk m satp vaddr s.bus) (page_table_walk-Sized satp vaddr s.bus)
    where
      go :
          (r : Access (Option (ℕ × ℕ) × B))
          → Sized r
          → Cached satp vaddr (elim r [
            | refused ↦ refused
            | fault ↦ fault
            | done (none, bus) ↦
                done (none, record s { cache_miss = (s.cache_miss + 1) % 2 ^ 64; bus = bus })
            | done (some (pte, size), bus) ↦ done (
              some (new_entry satp vaddr pte size),
              record s {
                cache_miss = (s.cache_miss + 1) % 2 ^ 64;
                bus = bus;
                tlb = set s.tlb s.index (new_entry satp vaddr pte size);
                index = (s.index + 1) % tlb_size;
              },
            )
          ])
      go refused z = tt
      go fault z = tt
      go (done (none, bus)) z = tt
      go (done (some (pte, size), bus)) z =
          look_up_set satp vaddr s.index s.tlb _ h (new_entry-matches satp vaddr pte size z) n

  get_tlb_entry_all :
      (satp vaddr : ℕ) (s : Sv39 B)
      → s.index < length s.tlb
      → Cached satp vaddr (get_tlb_entry m satp vaddr s)
  unfolding get_tlb_entry
  get_tlb_entry_all satp vaddr s h = elim (Bool-cases (not (is_legal_address vaddr))) [
    | inl e ↦ rw e tt
    | inr e ↦ elim (Option-cases (look_up_tlb satp vaddr s.tlb)) [
      | inl n ↦ rw (e, n) (fill-Cached satp vaddr s h n)
      | inr (x, q) ↦ rw (e, q) q
    ]
  ]

-- A translation that succeeds leaves its entry in the buffer, where the same lookup finds it.
pub get_tlb_entry_cached :
    {B : Type 0} (m : MmioDevice B) (satp vaddr : ℕ) (s s' : Sv39 B) (entry : Sv39TlbEntry)
    → s.index < length s.tlb
    → get_tlb_entry m satp vaddr s ≡ done (some entry, s')
    → look_up_tlb satp vaddr s'.tlb ≡ some entry
get_tlb_entry_cached m satp vaddr s s' entry h e =
    subst (Cached m satp vaddr) e (get_tlb_entry_all m satp vaddr s h)
