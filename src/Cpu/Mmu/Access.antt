-- ===== src/Cpu/Mmu/Access.antt =====
-- `class Mmu`: a fetch, a load and a store of the hart, with the traps that they raise.
use rv64_emulator.Common.{ℕ, List, Option, none, some, Bool, ◌&&◌, ◌||◌, not, ◌==◌}
use rv64_emulator.Common.{nonzero, if◌then◌else◌, done, refused, fault}
use rv64_emulator.Device.Mmio.{MmioDevice}
use rv64_emulator.Cpu.Trap.{
  Trap, instruction_access_fault, instruction_page_fault, load_access_fault, load_page_fault,
  store_access_fault, store_page_fault,
}
use rv64_emulator.Cpu.Mode.{PrivilegeMode, user, supervisor, machine, mode_eq}
use rv64_emulator.Cpu.Csr.Addr.{csr_satp, csr_mstatus}
use rv64_emulator.Cpu.Csr.Layout.{satp_mode, mprv, mpp, mxr}
use rv64_emulator.Cpu.Csr.State.{State, read, get}
use rv64_emulator.Cpu.Mmu.Entry.{Sv39TlbEntry, map_virtual_address}
use rv64_emulator.Cpu.Mmu.Sv39.{Sv39, get_tlb_entry}

-- What an access of the hart gives: kNoneTrap with the result, or a trap. `none` in place of a
-- reply, below, is undefined behaviour of a device.
pub data Reply (A : Type 0) : Type 0 where
  ok : A → Reply A
  trapped : Trap → Reply A

-- Mmu::UsePhysAddr
unfoldable pub use_phys_addr : PrivilegeMode → ℕ → ℕ → Bool
use_phys_addr mode satp ms =
    get satp satp_mode == 0
    || (mode_eq mode machine && (not (nonzero (get ms mprv)) || get ms mpp == 3))

-- The tests of Fetch on an entry.
unfoldable pub may_fetch : PrivilegeMode → Sv39TlbEntry → Bool
may_fetch mode entry =
    entry.a
    && entry.x
    && not ((mode_eq mode user && not entry.u) || (mode_eq mode supervisor && entry.u))

-- Those of Load and Store.
unfoldable pub may_load : ℕ → Sv39TlbEntry → Bool
may_load ms entry = entry.a && (entry.r || (nonzero (get ms mxr) && entry.x))

unfoldable pub may_store : Sv39TlbEntry → Bool
may_store entry = entry.a && entry.w && entry.d

module _ {B : Type 0} (m : MmioDevice B) where
  -- Sv39::Load, with the trap for a refusal.
  unfoldable pub load_phys : Trap → Sv39 B → ℕ → ℕ → Option (Reply (List ℕ) × Sv39 B)
  load_phys on_refusal s addr bytes = elim (m.load s.bus addr bytes) [
    | refused ↦ some (trapped on_refusal, s)
    | fault ↦ none
    | done (out, bus) ↦ some (ok out, record s { bus = bus })
  ]

  -- Sv39::Store
  unfoldable pub store_phys : Trap → Sv39 B → ℕ → ℕ → List ℕ → Option (Reply (Unit {0}) × Sv39 B)
  store_phys on_refusal s addr bytes buffer = elim (m.store s.bus addr bytes buffer) [
    | refused ↦ some (trapped on_refusal, s)
    | fault ↦ none
    | done bus ↦ some (ok tt, record s { bus = bus })
  ]

  -- The virtual half of the three accesses: translate by an entry that `allows` the access and go
  -- on at the physical address, or raise the page fault.
  unfoldable pub translate :
      {A : Type 0}
      → Trap
      → (Sv39TlbEntry → Bool)
      → ℕ
      → ℕ
      → Sv39 B
      → (Sv39 B → ℕ → Option (Reply A × Sv39 B))
      → Option (Reply A × Sv39 B)
  translate page_fault allows satp addr s go_on = elim (get_tlb_entry m satp addr s) [
    | refused ↦ none
    | fault ↦ none
    | done (none, s') ↦ some (trapped page_fault, s')
    | done (some entry, s') ↦
        if allows entry
        then go_on s' (map_virtual_address entry addr)
        else some (trapped page_fault, s')
  ]

  -- Mmu::Fetch
  unfoldable pub fetch : PrivilegeMode → State → Sv39 B → ℕ → ℕ → Option (Reply (List ℕ) × Sv39 B)
  unfolding load_phys translate may_fetch
  fetch mode state s addr bytes =
      let satp = read state csr_satp in
      let access = λ (s' : Sv39 B) (a : ℕ).
        load_phys (record { type = instruction_access_fault; val = addr }) s' a bytes in
      if mode_eq mode machine || get satp satp_mode == 0
      then access s addr
      else translate (record { type = instruction_page_fault; val = addr }) (may_fetch mode) satp
          addr s access

  -- Mmu::Load
  unfoldable pub load : PrivilegeMode → State → Sv39 B → ℕ → ℕ → Option (Reply (List ℕ) × Sv39 B)
  unfolding load_phys translate may_load use_phys_addr
  load mode state s addr bytes =
      let satp = read state csr_satp in
      let ms = read state csr_mstatus in
      let access = λ (s' : Sv39 B) (a : ℕ).
        load_phys (record { type = load_access_fault; val = addr }) s' a bytes in
      if use_phys_addr mode satp ms
      then access s addr
      else translate (record { type = load_page_fault; val = addr }) (may_load ms) satp addr s
          access

  -- Mmu::Store
  unfoldable pub store :
      PrivilegeMode → State → Sv39 B → ℕ → ℕ → List ℕ → Option (Reply (Unit {0}) × Sv39 B)
  unfolding store_phys translate may_store use_phys_addr
  store mode state s addr bytes buffer =
      let satp = read state csr_satp in
      let ms = read state csr_mstatus in
      let access = λ (s' : Sv39 B) (a : ℕ).
        store_phys (record { type = store_access_fault; val = addr }) s' a bytes buffer in
      if use_phys_addr mode satp ms
      then access s addr
      else translate (record { type = store_page_fault; val = addr }) may_store satp addr s access
