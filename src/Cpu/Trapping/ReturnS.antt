-- ===== src/Cpu/Trapping/ReturnS.antt =====
-- SRET undoes a trap that S mode took.
use rv64_emulator.Common.{ℕ, ◌≡◌, ◌≢◌, refl, ◌∙◌, arith, true, some, if◌then◌else◌}
use rv64_emulator.Bits.Digit.{bit}
use rv64_emulator.Bits.Fields.{field}
use rv64_emulator.Bits.Copy.{copy_fields, covers, bit-copy_fields}
use rv64_emulator.Cpu.Trap.{Trap, none_trap, is_trap}
use rv64_emulator.Cpu.Mode.{
  PrivilegeMode, user, supervisor, reserved, machine, mode_index, mode_of, mode_lt, mode_eq,
}
use rv64_emulator.Cpu.Csr.Addr.{csr_mstatus, csr_sepc}
use rv64_emulator.Cpu.Csr.Layout.{spp, spie, sie, mprv, tsr, mstatus_write_fields}
use rv64_emulator.Cpu.Csr.State.{get, put, read, write, write_csr}
use rv64_emulator.Cpu.Decode.Info.{DecodeInfo}
use rv64_emulator.Cpu.Hart.{Cpu}
use rv64_emulator.Cpu.Executor.System.{sret_exec, sret_status}
use rv64_emulator.Cpu.Trapping.{traps_to_s, handle_trap}
use rv64_emulator.Cpu.Trapping.Status.{bit-put, bit-get}
use rv64_emulator.Cpu.Trapping.Entry.{EntersSupervisor, handle_trap-EntersSupervisor}
use rv64_emulator.Cpu.Executor.Value.{Exec}

-- An execution that gives a hart like the one before the trap: at the saved address, in its mode,
-- with its registers and its supervisor interrupt enable.
pub record ResumesBelow {B : Type 0} (c : Cpu B) (epc : ℕ) (r : Exec B) : Type 0 where
  pub hart : Cpu B
  pub returns : r ≡ some (none_trap, hart)
  pub same_pc : hart.pc ≡ epc
  pub same_mode : hart.priv_mode ≡ c.priv_mode
  pub same_registers : hart.xregs ≡ c.xregs
  pub same_enable : bit (hart.state.csr csr_mstatus) 1 ≡ bit (c.state.csr csr_mstatus) 1

sret_enable : (st : ℕ) → bit (sret_status st) 1 ≡ bit st 5
unfolding sret_status
sret_enable st =
    rw
      (
        bit-put (put (put (put st spp 0) spie 1) sie (get st spie)) 17
            (if mode_lt (mode_of (get st spp)) machine then 0 else get st mprv) 1,
        bit-put (put (put st spp 0) spie 1) 1 (get st spie) 1,
        bit-get st 5,
      )
      refl

status_enable : (st : ℕ) → bit (copy_fields mstatus_write_fields (sret_status st) st) 1 ≡ bit st 5
unfolding covers
status_enable st = bit-copy_fields mstatus_write_fields (sret_status st) st 1 ∙ sret_enable st

field_one : (v : ℕ) → field v 8 1 ≡ bit v 8
field_one v = omega arith

mode_of-bit :
    (v : ℕ) (mode : PrivilegeMode)
    → mode ≢ reserved
    → mode ≢ machine
    → bit v 8 ≡ bit (mode_index mode) 0
    → mode_of (field v 8 1) ≡ mode
unfolding mode_of mode_index
mode_of-bit v user n k h = rw (field_one v, h) refl
mode_of-bit v supervisor n k h = rw (field_one v, h) refl
mode_of-bit v reserved n k h = absurd (n refl)
mode_of-bit v machine n k h = absurd (k refl)

-- A trap that M mode meets is never delegated.
delegated_not_machine :
    {B : Type 0} (c : Cpu B) (trap : Trap)
    → traps_to_s c.state c.priv_mode trap.type ≡ true
    → c.priv_mode ≢ machine
unfolding traps_to_s mode_eq
delegated_not_machine c trap h e = ground arith

module _ {B : Type 0} (now : ℕ) (c c' : Cpu B) (info : DecodeInfo) (trap : Trap) (epc : ℕ) where
  -- SRET in any hart that the trap has entered, unless TSR traps it.
  sret-ResumesBelow :
      EntersSupervisor c trap epc c'
      → c.priv_mode ≢ reserved
      → c.priv_mode ≢ machine
      → bit (c.state.csr csr_mstatus) 22 ≡ 0
      → ResumesBelow c epc (sret_exec now c' info)
  unfolding sret_exec read write write_csr mode_lt
  sret-ResumesBelow e n k t = record {
    hart = record c' {
      pc = c'.state.csr csr_sepc;
      state = write c'.state csr_mstatus (sret_status (c'.state.csr csr_mstatus));
      priv_mode = mode_of (get (c'.state.csr csr_mstatus) spp);
    };
    returns = rw (e.in_supervisor, untrapped) refl;
    same_pc = e.saved_pc;
    same_mode = mode_of-bit (c'.state.csr csr_mstatus) c.priv_mode n k (e.status 8);
    same_registers = e.registers;
    same_enable = status_enable (c'.state.csr csr_mstatus) ∙ e.status 5;
  }
    where
      untrapped : get (c'.state.csr csr_mstatus) tsr ≡ 0
      untrapped = omega (arith, e.status 22, t)

-- SRET right after a trap that S mode took resumes the hart where the trap met it, if TSR is clear.
pub sret-handle_trap :
    {B : Type 0} (now : ℕ) (c : Cpu B) (info : DecodeInfo) (trap : Trap) (epc : ℕ)
    → is_trap trap.type ≡ true
    → traps_to_s c.state c.priv_mode trap.type ≡ true
    → c.priv_mode ≢ reserved
    → bit (c.state.csr csr_mstatus) 22 ≡ 0
    → ResumesBelow c epc (sret_exec now (handle_trap c trap epc) info)
sret-handle_trap now c info trap epc h k n t =
    sret-ResumesBelow now c (handle_trap c trap epc) info trap epc
      (handle_trap-EntersSupervisor c trap epc h k) n (delegated_not_machine c trap k) t
