-- ===== src/Cpu/Trapping.antt =====
-- Taking traps and interrupts: CPU::HandleTrap and CPU::HandleInterrupt of src/cpu/cpu.cc.
pub mod Status
pub mod Entry
pub mod Return
pub mod ReturnS
pub mod Interrupt
pub mod Priority
pub mod Keeps
use rv64_emulator.Common.{ℕ, ◌-◌, ◌^◌, Bool, true, false, ◌&&◌, ◌||◌, not, nonzero, of_bool}
use rv64_emulator.Common.{bit_and, if◌then◌else◌}
use rv64_emulator.Bits.Digit.{bit_not}
use rv64_emulator.Libs.Util.{trap_to_mask, interrupt_bits_to_trap}
use rv64_emulator.Cpu.Trap.{
  Trap, TrapType, no_trap, trap_to_cause, is_interrupt, is_trap, get_trap_pc,
}
use rv64_emulator.Cpu.Mode.{
  PrivilegeMode, user, supervisor, reserved, machine, mode_index, mode_eq, mode_lt,
}
use rv64_emulator.Cpu.Csr.Addr.{
  csr_mideleg, csr_medeleg, csr_sstatus, csr_mstatus, csr_mip, csr_mie, csr_utvec, csr_stvec,
  csr_mtvec, csr_uepc, csr_sepc, csr_mepc, csr_ucause, csr_scause, csr_mcause, csr_utval, csr_stval,
  csr_mtval,
}
use rv64_emulator.Cpu.Csr.Layout.{sie, spie, spp, mie, mpie, mpp}
use rv64_emulator.Cpu.Csr.State.{State, read, write, set_wfi, get, put}
use rv64_emulator.Cpu.Hart.{Cpu}

-- UINT64_MAX, where a table has no register.
abbrev no_register : ℕ
no_register = 2 ^ 64 - 1

-- kTvecReg, kEpcReg, kCauseReg and kTvalReg
unfoldable pub tvec_reg : PrivilegeMode → ℕ
tvec_reg user = csr_utvec
tvec_reg supervisor = csr_stvec
tvec_reg reserved = no_register
tvec_reg machine = csr_mtvec

unfoldable pub epc_reg : PrivilegeMode → ℕ
epc_reg user = csr_uepc
epc_reg supervisor = csr_sepc
epc_reg reserved = no_register
epc_reg machine = csr_mepc

unfoldable pub cause_reg : PrivilegeMode → ℕ
cause_reg user = csr_ucause
cause_reg supervisor = csr_scause
cause_reg reserved = no_register
cause_reg machine = csr_mcause

unfoldable pub tval_reg : PrivilegeMode → ℕ
tval_reg user = csr_utval
tval_reg supervisor = csr_stval
tval_reg reserved = no_register
tval_reg machine = csr_mtval

-- `CauseDesc`: 63 bits of cause and the interrupt bit.
unfoldable pub cause_word : TrapType → ℕ
cause_word t = put (put 0 (0, 63) (trap_to_cause t)) (63, 1) (of_bool (is_interrupt t))

-- `trap_to_s`: outside M mode, if the delegation register has the cause's bit.
unfoldable pub traps_to_s : State → PrivilegeMode → TrapType → Bool
traps_to_s s mode t =
    let mxdeleg = read s (if is_interrupt t then csr_mideleg else csr_medeleg) in
    not (mode_eq mode machine) && nonzero (bit_and mxdeleg (2 ^ trap_to_cause t))

-- The status word on entry: the enable bit is saved and cleared, and the mode that was left noted.
unfoldable pub enter_s : ℕ → PrivilegeMode → ℕ
unfolding mode_index
enter_s status origin = put (put (put status spie (get status sie)) sie 0) spp (mode_index origin)

unfoldable pub enter_m : ℕ → PrivilegeMode → ℕ
unfolding mode_index
enter_m status origin = put (put (put status mpie (get status mie)) mie 0) mpp (mode_index origin)

-- The registers that HandleTrap writes on the way to the given mode.
unfoldable pub trap_state : State → PrivilegeMode → PrivilegeMode → Trap → ℕ → State
unfolding epc_reg cause_reg tval_reg
trap_state s origin target trap epc =
    let to_s = mode_eq target supervisor in
    let status_addr = if to_s then csr_sstatus else csr_mstatus in
    let status = read s status_addr in
    let s1 = write s (epc_reg target) epc in
    let s2 = write s1 (cause_reg target) (cause_word trap.type) in
    let s3 = write s2 (tval_reg target) trap.val in
    write s3 status_addr (if to_s then enter_s status origin else enter_m status origin)

-- CPU::HandleTrap
unfoldable pub handle_trap : {B : Type 0} → Cpu B → Trap → ℕ → Cpu B
unfolding traps_to_s tvec_reg
handle_trap c trap epc =
    let target = if traps_to_s c.state c.priv_mode trap.type then supervisor else machine in
    if not (is_trap trap.type) then c else record c {
      pc = get_trap_pc (read c.state (tvec_reg target)) (trap_to_cause trap.type);
      state = trap_state c.state c.priv_mode target trap epc;
      priv_mode = target;
    }

-- The interrupt that HandleInterrupt takes, or no_trap.
unfoldable pub final_interrupt : State → PrivilegeMode → TrapType
final_interrupt s mode =
    let interrupt_bits = bit_and (read s csr_mip) (read s csr_mie) in
    let ms = read s csr_mstatus in
    let mideleg = read s csr_mideleg in
    let m_mode_bits = bit_and interrupt_bits (bit_not 64 mideleg) in
    let t = interrupt_bits_to_trap interrupt_bits in
    if mode_eq mode machine
    then (if nonzero m_mode_bits && nonzero (get ms mie)
        then interrupt_bits_to_trap m_mode_bits
        else no_trap)
    else if nonzero (bit_and (trap_to_mask t) mideleg)
    then (if nonzero (get ms sie) || mode_lt mode supervisor then t else no_trap)
    else (if nonzero (get ms mie) || mode_lt mode machine then t else no_trap)

-- CPU::HandleInterrupt
unfoldable pub handle_interrupt : {B : Type 0} → Cpu B → ℕ → Cpu B
unfolding final_interrupt handle_trap
handle_interrupt c inst_addr =
    let mip = read c.state csr_mip in
    let t = final_interrupt c.state c.priv_mode in
    let mask = trap_to_mask t in
    let c1 = handle_trap c (record { type = t; val = c.pc }) inst_addr in
    let s = write c1.state csr_mip (bit_and mip (bit_not 64 mask)) in
    record c1 { state = if nonzero mask then set_wfi s false else s }
