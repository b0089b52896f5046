-- ===== src/Cpu/Hart.antt =====
-- The state of `class CPU` and of its executor: include/cpu/cpu.h, include/cpu/executor.h.
pub mod Valid
use rv64_emulator.Common.{ℕ, Option, none, some, List}
use rv64_emulator.Device.Mmio.{MmioDevice}
use rv64_emulator.Cpu.Mode.{PrivilegeMode, machine}
use rv64_emulator.Cpu.Csr.State.{State, new_state, update}
use rv64_emulator.Cpu.Csr.State
use rv64_emulator.Cpu.Mmu.Sv39.{Sv39}
use rv64_emulator.Cpu.Mmu.Sv39
use rv64_emulator.Cpu.Mmu.Access.{Reply, ok, trapped}
use rv64_emulator.Cpu.Mmu.Access

-- `AmoReservation`
pub record AmoReservation : Type 0 where
  pub addr : ℕ
  pub size : ℕ
  pub valid : ℕ
  pub hart_id : ℕ

-- `class CPU`. The registers are a function; the code indexes them by fields of five bits. The
-- floating-point registers are only ever cleared, and are left out.
pub record Cpu (B : Type 0) : Type 0 where
  pub pc : ℕ
  pub instret : ℕ
  pub hart_id : ℕ
  pub state : State
  pub xregs : ℕ → ℕ
  pub priv_mode : PrivilegeMode
  pub mmu : Sv39 B
  pub reservation : AmoReservation

-- `reg_file_.xregs[rd] = val`
abbrev pub set_xreg : {B : Type 0} → Cpu B → ℕ → ℕ → Cpu B
set_xreg c rd val = record c { xregs = update c.xregs rd val }

-- CPU::CPU for the hart with the given id; the reservation is not initialised by the code, and is
-- whatever memory held.
unfoldable pub new_cpu : {B : Type 0} → ℕ → AmoReservation → Sv39 B → Cpu B
new_cpu hart_id reservation mmu = record {
  pc = 0;
  instret = 0;
  hart_id = hart_id;
  state = new_state;
  xregs = update (λ r. 0) 10 hart_id;
  priv_mode = machine;
  mmu = mmu;
  reservation = reservation;
}

module _ {B : Type 0} (m : MmioDevice B) where
  -- CPU::Reset
  unfoldable pub reset : Cpu B → Cpu B
  reset c = record c {
    instret = 0;
    priv_mode = machine;
    pc = 0;
    xregs = λ r. 0;
    mmu = Sv39.reset m c.mmu;
    state = State.reset c.state;
  }

  -- CPU::Load, CPU::Store and CPU::Fetch; `none` is undefined behaviour of a device.
  unfoldable pub load : Cpu B → ℕ → ℕ → Option (Reply (List ℕ) × Cpu B)
  load c addr bytes = elim (Access.load m c.priv_mode c.state c.mmu addr bytes) [
    | none ↦ none
    | some (r, mmu) ↦ some (r, record c { mmu = mmu })
  ]

  unfoldable pub store : Cpu B → ℕ → ℕ → List ℕ → Option (Reply (Unit {0}) × Cpu B)
  store c addr bytes buffer = elim (Access.store m c.priv_mode c.state c.mmu addr bytes buffer) [
    | none ↦ none
    | some (r, mmu) ↦ some (r, record c { mmu = mmu })
  ]

  unfoldable pub fetch : Cpu B → ℕ → ℕ → Option (Reply (List ℕ) × Cpu B)
  fetch c addr bytes = elim (Access.fetch m c.priv_mode c.state c.mmu addr bytes) [
    | none ↦ none
    | some (r, mmu) ↦ some (r, record c { mmu = mmu })
  ]

-- CPU::FlushTlb
unfoldable pub flush_tlb : {B : Type 0} → ℕ → ℕ → Cpu B → Cpu B
flush_tlb vaddr asid c = record c { mmu = Sv39.flush_tlb vaddr asid c.mmu }

-- CPU::GetInstret
unfoldable pub get_instret : {B : Type 0} → Cpu B → ℕ
get_instret c = c.instret
