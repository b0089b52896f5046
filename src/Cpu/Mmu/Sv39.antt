-- ===== src/Cpu/Mmu/Sv39.antt =====
-- `class Sv39`, over the bus that it shares with the devices.
pub mod Tlb
use rv64_emulator.Common.{ℕ, zero, suc, ◌+◌, ◌*◌, ◌%◌, ◌^◌, List, [], ◌∷◌, map, Option, none, some}
use rv64_emulator.Common.{Bool, true, false, ◌&&◌, ◌||◌, not, leb, ltb, ◌==◌, nonzero, set}
use rv64_emulator.Common.{if◌then◌else◌, of_le_bytes, Access, done, refused, fault}
use rv64_emulator.Device.Mmio.{MmioDevice}
use rv64_emulator.Cpu.Csr.State.{get, put}
use rv64_emulator.Cpu.Csr.Layout.{satp_ppn, satp_asid, satp_mode}
use rv64_emulator.Cpu.Mmu.Entry.{
  Sv39TlbEntry, empty_entry, get_ppn_by_page_table_entry, next_table, get_tlb_tag, flag, pte_v,
  pte_r, pte_w, pte_x, pte_u, pte_g, pte_a, pte_d, pte_ppn_0, pte_ppn_1, pte_reserved, pte_pbmt,
  va_vpn_0, va_vpn_1, va_vpn_2,
}

-- kTlbSize
abbrev pub tlb_size : ℕ
tlb_size = 2

pub record Sv39 (B : Type 0) : Type 0 where
  pub index : ℕ
  pub cache_hit : ℕ
  pub cache_miss : ℕ
  pub tlb : List Sv39TlbEntry
  pub bus : B

-- Sv39::Sv39
unfoldable pub new_sv39 : {B : Type 0} → B → Sv39 B
new_sv39 bus = record {
  index = 0;
  cache_hit = 0;
  cache_miss = 0;
  tlb = empty_entry ∷ empty_entry ∷ [];
  bus = bus;
}

-- The test of LookUpTlb on one entry.
unfoldable pub matches : ℕ → ℕ → Sv39TlbEntry → Bool
matches satp vaddr entry =
    (entry.asid == get satp satp_asid || entry.g)
    && ltb 0 entry.page_size
    && get_tlb_tag vaddr entry.page_size == entry.tag

-- Sv39::LookUpTlb: the first entry that matches.
unfoldable pub look_up_tlb : ℕ → ℕ → List Sv39TlbEntry → Option Sv39TlbEntry
look_up_tlb satp vaddr [] = none
look_up_tlb satp vaddr (entry ∷ tlb) =
    if matches satp vaddr entry then some entry else look_up_tlb satp vaddr tlb

-- kPageEntryIndex at level `i` of the walk.
unfoldable pub page_entry_index : ℕ → ℕ → ℕ
page_entry_index vaddr i =
    if i == 2 then get vaddr va_vpn_2 else if i == 1 then get vaddr va_vpn_1 else get vaddr va_vpn_0

-- What ends the walk before its kind is looked at.
unfoldable pub is_bad_entry : ℕ → Bool
is_bad_entry pte =
    not (flag pte pte_v)
    || (not (flag pte pte_r) && flag pte pte_w)
    || flag pte pte_reserved
    || flag pte pte_pbmt

unfoldable pub is_table_pointer : ℕ → Bool
is_table_pointer pte = not (flag pte pte_r) && not (flag pte pte_w) && not (flag pte pte_x)

-- kPpnInvalid: a large page that is not aligned to its size.
unfoldable pub is_ppn_invalid : ℕ → ℕ → Bool
is_ppn_invalid i pte =
    (i == 2 && (flag pte pte_ppn_1 || flag pte pte_ppn_0)) || (i == 1 && flag pte pte_ppn_0)

-- What the walk does with the entry read at level `i`: stop, or go on to another table.
pub data Visit : Type 0 where
  invalid : Visit
  pointer : ℕ → Visit
  leaf : ℕ → ℕ → Visit

unfoldable pub visit : ℕ → ℕ → Visit
unfolding is_bad_entry is_table_pointer is_ppn_invalid
visit i pte =
    if is_bad_entry pte
    then invalid
    else if is_table_pointer pte
    then pointer (next_table pte)
    else if is_ppn_invalid i pte
    then invalid
    else leaf pte (i + 1)

module _ {B : Type 0} (m : MmioDevice B) where
  -- The loop of PageTableWalk with `n` levels left. The result is the leaf with its page size, or
  -- none; the bus comes back with what the loads changed. `fault` is undefined behaviour of a device.
  unfoldable pub walk : ℕ → ℕ → ℕ → B → Access (Option (ℕ × ℕ) × B)
  walk zero vaddr page_table_addr bus = done (none, bus)
  walk (suc i) vaddr page_table_addr bus =
      elim (m.load bus ((page_table_addr + page_entry_index vaddr i * 8) % 2 ^ 64) 8) [
        | refused ↦ done (none, bus)
        | fault ↦ fault
        | done (bytes, bus') ↦ elim (visit i (of_le_bytes bytes)) [
          | invalid ↦ done (none, bus')
          | pointer next ↦ walk i vaddr next bus'
          | leaf pte size ↦ done (some (pte, size), bus')
        ]
      ]

  -- Sv39::PageTableWalk
  unfoldable pub page_table_walk : ℕ → ℕ → B → Access (Option (ℕ × ℕ) × B)
  unfolding walk
  page_table_walk satp vaddr bus =
      if not (get satp satp_mode == 8)
      then done (none, bus)
      else walk 3 vaddr (get satp satp_ppn * 2 ^ 12) bus

-- kSv39VirtualAddressLegal
unfoldable pub is_legal_address : ℕ → Bool
is_legal_address vaddr = leb vaddr 0x0000003fffffffff || leb 0xffffffc000000000 vaddr

-- The entry that a miss puts into the buffer.
unfoldable pub new_entry : ℕ → ℕ → ℕ → ℕ → Sv39TlbEntry
new_entry satp vaddr pte size = record {
  ppn = get_ppn_by_page_table_entry pte;
  tag = get_tlb_tag vaddr size;
  asid = get satp satp_asid;
  r = flag pte pte_r;
  w = flag pte pte_w;
  x = flag pte pte_x;
  u = flag pte pte_u;
  g = flag pte pte_g;
  a = flag pte pte_a;
  d = flag pte pte_d;
  page_size = size;
}

module _ {B : Type 0} (m : MmioDevice B) where
  -- The part of GetTlbEntry that runs on a miss.
  unfoldable pub fill : ℕ → ℕ → Sv39 B → Access (Option Sv39TlbEntry × Sv39 B)
  fill satp vaddr s =
      let missed = record s { cache_miss = (s.cache_miss + 1) % 2 ^ 64 } in
      elim (page_table_walk m satp vaddr s.bus) [
        | refused ↦ refused
        | fault ↦ fault
        | done (none, bus) ↦ done (none, record missed { bus = bus })
        | done (some (pte, size), bus) ↦
            let entry = new_entry satp vaddr pte size in
            done (
              some entry,
              record missed {
                bus = bus;
                tlb = set s.tlb s.index entry;
                index = (s.index + 1) % tlb_size;
              },
            )
      ]

  -- Sv39::GetTlbEntry
  unfoldable pub get_tlb_entry : ℕ → ℕ → Sv39 B → Access (Option Sv39TlbEntry × Sv39 B)
  get_tlb_entry satp vaddr s =
      if not (is_legal_address vaddr) then done (none, s) else elim (look_up_tlb satp vaddr s.tlb) [
        | some entry ↦ done (some entry, record s { cache_hit = (s.cache_hit + 1) % 2 ^ 64 })
        | none ↦ fill satp vaddr s
      ]

  -- Sv39::Reset
  unfoldable pub reset : Sv39 B → Sv39 B
  reset s = record s { index = 0; tlb = empty_entry ∷ empty_entry ∷ []; bus = m.reset s.bus }

-- The body of the loop in FlushTlb.
unfoldable pub flush_entry : ℕ → ℕ → Sv39TlbEntry → Sv39TlbEntry
flush_entry vaddr asid entry =
    if asid == 0 || entry.asid == asid
    then (if vaddr == 0
        then record entry { page_size = 0 }
        else if ltb 0 entry.page_size && entry.tag == get_tlb_tag vaddr entry.page_size
        then record entry { page_size = 0 }
        else entry)
    else entry

-- Sv39::FlushTlb
unfoldable pub flush_tlb : {B : Type 0} → ℕ → ℕ → Sv39 B → Sv39 B
unfolding flush_entry
flush_tlb vaddr asid s = record s { tlb = map (flush_entry vaddr asid) s.tlb }
