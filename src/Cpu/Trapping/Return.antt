-- ===== src/Cpu/Trapping/Return.antt =====
-- MRET undoes a trap that M mode took.
use rv64_emulator.Common.{ℕ, ◌+◌, ◌*◌, ◌≡◌, refl, ◌∙◌, arith, true, false, some}
use rv64_emulator.Bits.Digit.{bit}
use rv64_emulator.Bits.Fields.{field}
use rv64_emulator.Cpu.Trap.{Trap, none_trap, is_trap}
use rv64_emulator.Cpu.Mode.{
  PrivilegeMode, user, supervisor, reserved, machine, mode_index, mode_of, mode_lt,
}
use rv64_emulator.Cpu.Csr.Addr.{csr_mepc, csr_mstatus}
use rv64_emulator.Cpu.Csr.Layout.{mpp}
use rv64_emulator.Cpu.Csr.State.{get, read, write, write_csr}
use rv64_emulator.Cpu.Decode.Info.{DecodeInfo}
use rv64_emulator.Cpu.Hart.{Cpu}
use rv64_emulator.Cpu.Executor.Value.{Exec}
use rv64_emulator.Cpu.Executor.System.{mret_exec, mret_status}
use rv64_emulator.Cpu.Trapping.{traps_to_s, handle_trap}
use rv64_emulator.Cpu.Trapping.Status.{bit-status_mret}
use rv64_emulator.Cpu.Trapping.Entry.{EntersMachine, handle_trap-EntersMachine}

-- An execution that gives a hart like the one before the trap: at the saved address, in its mode,
-- with its registers and its machine interrupt enable.
pub record Resumes {B : Type 0} (c : Cpu B) (epc : ℕ) (r : Exec B) : Type 0 where
  pub hart : Cpu B
  pub returns : r ≡ some (none_trap, hart)
  pub same_pc : hart.pc ≡ epc
  pub same_mode : hart.priv_mode ≡ c.priv_mode
  pub same_registers : hart.xregs ≡ c.xregs
  pub same_enable : bit (hart.state.csr csr_mstatus) 3 ≡ bit (c.state.csr csr_mstatus) 3

field_two : (v : ℕ) → field v 11 2 ≡ bit v 11 + 2 * bit v 12
field_two v = omega arith

mode_of_bits :
    (v : ℕ) (mode : PrivilegeMode)
    → bit v 11 ≡ bit (mode_index mode) 0
    → bit v 12 ≡ bit (mode_index mode) 1
    → mode_of (field v 11 2) ≡ mode
unfolding mode_of mode_index
mode_of_bits v user h k = rw (field_two v, h, k) refl
mode_of_bits v supervisor h k = rw (field_two v, h, k) refl
mode_of_bits v reserved h k = rw (field_two v, h, k) refl
mode_of_bits v machine h k = rw (field_two v, h, k) refl

module _ {B : Type 0} (now : ℕ) (c c' : Cpu B) (info : DecodeInfo) (trap : Trap) (epc : ℕ) where
  -- MRET in any hart that the trap has entered.
  mret-Resumes : EntersMachine c trap epc c' → Resumes c epc (mret_exec now c' info)
  unfolding mret_exec read write write_csr mode_lt
  mret-Resumes e = record {
    hart = record c' {
      pc = c'.state.csr csr_mepc;
      state = write c'.state csr_mstatus (mret_status (c'.state.csr csr_mstatus));
      priv_mode = mode_of (get (c'.state.csr csr_mstatus) mpp);
    };
    returns = rw e.in_machine refl;
    same_pc = e.saved_pc;
    same_mode = mode_of_bits (c'.state.csr csr_mstatus) c.priv_mode (e.status 11) (e.status 12);
    same_registers = e.registers;
    same_enable = bit-status_mret (c'.state.csr csr_mstatus) 3 ∙ e.status 7;
  }

-- MRET right after a trap that M mode took resumes the hart where the trap met it.
pub mret-handle_trap :
    {B : Type 0} (now : ℕ) (c : Cpu B) (info : DecodeInfo) (trap : Trap) (epc : ℕ)
    → is_trap trap.type ≡ true
    → traps_to_s c.state c.priv_mode trap.type ≡ false
    → Resumes c epc (mret_exec now (handle_trap c trap epc) info)
mret-handle_trap now c info trap epc h k =
    mret-Resumes now c (handle_trap c trap epc) info trap epc
      (handle_trap-EntersMachine c trap epc h k)
