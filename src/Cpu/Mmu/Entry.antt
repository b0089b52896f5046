-- ===== src/Cpu/Mmu/Entry.antt =====
-- Page table entries, entries of the translation buffer, and the arithmetic on them.
use rv64_emulator.Common.{ℕ, ◌+◌, ◌*◌, ◌/◌, ◌%◌, ◌^◌, Bool, nonzero}
use rv64_emulator.Cpu.Csr.State.{get, put}

-- `Sv39PageTableEntry` is the word; these are its fields.
abbrev pub pte_v : ℕ × ℕ
pte_v = (0, 1)

abbrev pub pte_r : ℕ × ℕ
pte_r = (1, 1)

abbrev pub pte_w : ℕ × ℕ
pte_w = (2, 1)

abbrev pub pte_x : ℕ × ℕ
pte_x = (3, 1)

abbrev pub pte_u : ℕ × ℕ
pte_u = (4, 1)

abbrev pub pte_g : ℕ × ℕ
pte_g = (5, 1)

abbrev pub pte_a : ℕ × ℕ
pte_a = (6, 1)

abbrev pub pte_d : ℕ × ℕ
pte_d = (7, 1)

abbrev pub pte_ppn_0 : ℕ × ℕ
pte_ppn_0 = (10, 9)

abbrev pub pte_ppn_1 : ℕ × ℕ
pte_ppn_1 = (19, 9)

abbrev pub pte_ppn_2 : ℕ × ℕ
pte_ppn_2 = (28, 26)

abbrev pub pte_reserved : ℕ × ℕ
pte_reserved = (54, 7)

abbrev pub pte_pbmt : ℕ × ℕ
pte_pbmt = (61, 2)

-- `Sv39VirtualAddress`
abbrev pub va_vpn_0 : ℕ × ℕ
va_vpn_0 = (12, 9)

abbrev pub va_vpn_1 : ℕ × ℕ
va_vpn_1 = (21, 9)

abbrev pub va_vpn_2 : ℕ × ℕ
va_vpn_2 = (30, 9)

-- `Sv39PhysicalAddress`
abbrev pub pa_ppn_0 : ℕ × ℕ
pa_ppn_0 = (12, 9)

abbrev pub pa_ppn_1 : ℕ × ℕ
pa_ppn_1 = (21, 9)

abbrev pub pa_ppn_2 : ℕ × ℕ
pa_ppn_2 = (30, 26)

-- `Sv39TlbEntry`; a page size of 0 marks an entry that is not in use.
pub record Sv39TlbEntry : Type 0 where
  pub ppn : ℕ
  pub tag : ℕ
  pub asid : ℕ
  pub r : Bool
  pub w : Bool
  pub x : Bool
  pub u : Bool
  pub g : Bool
  pub a : Bool
  pub d : Bool
  pub page_size : ℕ

-- memset to 0
abbrev pub empty_entry : Sv39TlbEntry
empty_entry = record {
  ppn = 0;
  tag = 0;
  asid = 0;
  r = Bool.false;
  w = Bool.false;
  x = Bool.false;
  u = Bool.false;
  g = Bool.false;
  a = Bool.false;
  d = Bool.false;
  page_size = 0;
}

-- MapVirtualAddress
unfoldable pub map_virtual_address : Sv39TlbEntry → ℕ → ℕ
map_virtual_address entry vaddr =
    let bits = entry.page_size * 9 in (entry.ppn + vaddr % (8 * 2 ^ bits)) % 2 ^ 64

-- GetPpnByPageTableEntry, which packs the page number into a virtual address.
unfoldable pub get_ppn_by_page_table_entry : ℕ → ℕ
get_ppn_by_page_table_entry entry =
    put (put (put 0 va_vpn_0 (get entry pte_ppn_0)) va_vpn_1 (get entry pte_ppn_1)) va_vpn_2
      (get entry pte_ppn_2)

-- The `Sv39PhysicalAddress` of the next page table.
unfoldable pub next_table : ℕ → ℕ
next_table pte =
    put (put (put 0 pa_ppn_0 (get pte pte_ppn_0)) pa_ppn_1 (get pte pte_ppn_1)) pa_ppn_2
      (get pte pte_ppn_2)

-- GetTlbTag
unfoldable pub get_tlb_tag : ℕ → ℕ → ℕ
get_tlb_tag vaddr page_size = let bits = page_size * 9 in vaddr / 2 ^ 3 / 2 ^ bits

abbrev pub flag : ℕ → ℕ × ℕ → Bool
flag pte f = nonzero (get pte f)
