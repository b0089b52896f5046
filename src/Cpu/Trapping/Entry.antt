-- ===== src/Cpu/Trapping/Entry.antt =====
-- What CPU::HandleTrap leaves behind.
use rv64_emulator.Common.{ℕ, ◌≤◌, ◌≡◌, ◌≢◌, refl, arith, Bool, true, false, Bool-cases, inl, inr}
use rv64_emulator.Common.{if◌then◌else◌, not, ◌&&◌}
use rv64_emulator.Cpu.Trap.{Trap, is_trap, trap_to_cause, get_trap_pc}
use rv64_emulator.Cpu.Mode.{PrivilegeMode, user, supervisor, reserved, machine, mode_index, mode_eq}
use rv64_emulator.Bits.Digit.{bit}
use rv64_emulator.Cpu.Csr.Addr.{
  csr_mtvec, csr_mepc, csr_mcause, csr_mtval, csr_mstatus, csr_stvec, csr_sepc, csr_scause,
  csr_stval,
}
use rv64_emulator.Cpu.Csr.State.{read, write, write_csr}
use rv64_emulator.Cpu.Trapping.{trap_state, cause_word, tvec_reg, epc_reg, cause_reg, tval_reg}
use rv64_emulator.Cpu.Trapping.Status.{after_m, after_s, bit-status_m, bit-status_s}
use rv64_emulator.Cpu.Hart.{Cpu}
use rv64_emulator.Cpu.Trapping.{traps_to_s, handle_trap}

target_le :
    (mode : PrivilegeMode) (delegated : Bool)
    → mode ≢ reserved
    → mode_index mode
      ≤ mode_index (if not (mode_eq mode machine) && delegated then supervisor else machine)
unfolding mode_index mode_eq
target_le user true ne = omega arith
target_le user false ne = omega arith
target_le supervisor true ne = omega arith
target_le supervisor false ne = omega arith
target_le reserved d ne = absurd (ne refl)
target_le machine d ne = omega arith

-- A trap never lowers the privilege of a hart that is in one of the three modes.
handle_trap_raises :
    {B : Type 0} (c : Cpu B) (trap : Trap) (epc : ℕ)
    → c.priv_mode ≢ reserved
    → mode_index c.priv_mode ≤ mode_index (handle_trap c trap epc).priv_mode
unfolding handle_trap traps_to_s
handle_trap_raises c trap epc ne = elim (Bool-cases (is_trap trap.type)) [
  | inl e ↦ rw e (target_le c.priv_mode _ ne)
  | inr e ↦ rw e (omega arith)
]

-- What a trap taken in M mode leaves.
pub record EntersMachine {B : Type 0} (c : Cpu B) (trap : Trap) (epc : ℕ) (c' : Cpu B)
    : Type 0 where
  pub at_handler : c'.pc ≡ get_trap_pc (read c.state csr_mtvec) (trap_to_cause trap.type)
  pub in_machine : c'.priv_mode ≡ machine
  pub saved_pc : read c'.state csr_mepc ≡ epc
  pub saved_cause : read c'.state csr_mcause ≡ cause_word trap.type
  pub saved_tval : read c'.state csr_mtval ≡ trap.val
  pub status :
      (i : ℕ) → bit (c'.state.csr csr_mstatus) i ≡ after_m (c.state.csr csr_mstatus) c.priv_mode i
  pub others :
      (a : ℕ)
      → a ≢ csr_mepc
      → a ≢ csr_mcause
      → a ≢ csr_mtval
      → a ≢ csr_mstatus
      → c'.state.csr a ≡ c.state.csr a
  pub registers : c'.xregs ≡ c.xregs

-- What a trap taken in S mode leaves.
pub record EntersSupervisor {B : Type 0} (c : Cpu B) (trap : Trap) (epc : ℕ) (c' : Cpu B)
    : Type 0 where
  pub at_handler : c'.pc ≡ get_trap_pc (read c.state csr_stvec) (trap_to_cause trap.type)
  pub in_supervisor : c'.priv_mode ≡ supervisor
  pub saved_pc : read c'.state csr_sepc ≡ epc
  pub saved_cause : read c'.state csr_scause ≡ cause_word trap.type
  pub saved_tval : read c'.state csr_stval ≡ trap.val
  pub status :
      (i : ℕ) → bit (c'.state.csr csr_mstatus) i ≡ after_s (c.state.csr csr_mstatus) c.priv_mode i
  pub others :
      (a : ℕ)
      → a ≢ csr_sepc
      → a ≢ csr_scause
      → a ≢ csr_stval
      → a ≢ csr_mstatus
      → c'.state.csr a ≡ c.state.csr a
  pub registers : c'.xregs ≡ c.xregs

-- A trap that is not delegated enters M mode.
pub handle_trap-EntersMachine :
    {B : Type 0} (c : Cpu B) (trap : Trap) (epc : ℕ)
    → is_trap trap.type ≡ true
    → traps_to_s c.state c.priv_mode trap.type ≡ false
    → EntersMachine c trap epc (handle_trap c trap epc)
unfolding handle_trap trap_state tvec_reg epc_reg cause_reg tval_reg read write write_csr mode_eq
handle_trap-EntersMachine c trap epc h k =
    rw (h, k)
      (record {
        at_handler = refl;
        in_machine = refl;
        saved_pc = refl;
        saved_cause = refl;
        saved_tval = refl;
        status = λ i. bit-status_m (c.state.csr csr_mstatus) c.priv_mode i;
        others = λ a n1 n2 n3 n4. ground arith;
        registers = refl;
      })

-- A trap that is delegated enters S mode.
pub handle_trap-EntersSupervisor :
    {B : Type 0} (c : Cpu B) (trap : Trap) (epc : ℕ)
    → is_trap trap.type ≡ true
    → traps_to_s c.state c.priv_mode trap.type ≡ true
    → EntersSupervisor c trap epc (handle_trap c trap epc)
unfolding handle_trap trap_state tvec_reg epc_reg cause_reg tval_reg read write write_csr mode_eq
handle_trap-EntersSupervisor c trap epc h k =
    rw (h, k)
      (record {
        at_handler = refl;
        in_supervisor = refl;
        saved_pc = refl;
        saved_cause = refl;
        saved_tval = refl;
        status = λ i. bit-status_s (c.state.csr csr_mstatus) c.priv_mode i;
        others = λ a n1 n2 n3 n4. ground arith;
        registers = refl;
      })
