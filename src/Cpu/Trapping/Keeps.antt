-- ===== src/Cpu/Trapping/Keeps.antt =====
-- Taking a trap or an interrupt leaves a valid hart.
use rv64_emulator.Common.{
  ℕ, ◌^◌, ◌<◌, arith, Bool, true, false, nonzero, not, bit_and, if◌then◌else◌,
}
use rv64_emulator.Bits.Digit.{bit_not}
use rv64_emulator.Bits.Bounds.{bit_and-lt, set_field-lt}
use rv64_emulator.Cpu.Trap.{Trap, TrapType, get_trap_pc, trap_to_cause, is_trap}
use rv64_emulator.Cpu.Mode.{PrivilegeMode, supervisor, machine, mode_eq, mode_index}
use rv64_emulator.Cpu.Csr.Addr.{csr_mip}
use rv64_emulator.Cpu.Csr.Layout.{sie, mie}
use rv64_emulator.Cpu.Csr.State.{State, read, write, get, set_wfi}
use rv64_emulator.Cpu.Csr.Invariant.{write-IsValid, read-lt, set_wfi-IsValid}
use rv64_emulator.Cpu.Csr.Invariant
use rv64_emulator.Cpu.Hart.{Cpu}
use rv64_emulator.Cpu.Hart.Valid.{IsValid, set_state-IsValid}
use rv64_emulator.Libs.Util.{trap_to_mask}
use rv64_emulator.Cpu.Trapping.{
  cause_word, enter_s, enter_m, trap_state, traps_to_s, epc_reg, cause_reg, tval_reg, tvec_reg,
  handle_trap, handle_interrupt, final_interrupt,
}

get_trap_pc-lt : (tvec cause : ℕ) → get_trap_pc tvec cause < 2 ^ 64
unfolding get_trap_pc
get_trap_pc-lt tvec cause = omega arith

cause_word-lt : (t : TrapType) → cause_word t < 2 ^ 64
unfolding cause_word
cause_word-lt t =
    set_field-lt _ 63 1 _ (set_field-lt 0 0 63 (trap_to_cause t) (omega arith) (omega arith))
      (omega arith)

enter_s-lt :
    (status : ℕ) (origin : PrivilegeMode) → status < 2 ^ 64 → enter_s status origin < 2 ^ 64
unfolding enter_s
enter_s-lt status origin h =
    set_field-lt _ 8 1 (mode_index origin)
      (set_field-lt _ 1 1 0 (set_field-lt status 5 1 (get status sie) h (omega arith))
        (omega arith))
      (omega arith)

enter_m-lt :
    (status : ℕ) (origin : PrivilegeMode) → status < 2 ^ 64 → enter_m status origin < 2 ^ 64
unfolding enter_m
enter_m-lt status origin h =
    set_field-lt _ 11 2 (mode_index origin)
      (set_field-lt _ 3 1 0 (set_field-lt status 7 1 (get status mie) h (omega arith))
        (omega arith))
      (omega arith)

entered :
    (b : Bool) (status : ℕ) (origin : PrivilegeMode)
    → status < 2 ^ 64
    → (if b then enter_s status origin else enter_m status origin) < 2 ^ 64
entered true status origin h = enter_s-lt status origin h
entered false status origin h = enter_m-lt status origin h

trap_state-IsValid :
    (s : State) (origin target : PrivilegeMode) (trap : Trap) (epc : ℕ)
    → Invariant.IsValid s
    → trap.val < 2 ^ 64
    → epc < 2 ^ 64
    → Invariant.IsValid (trap_state s origin target trap epc)
unfolding trap_state
trap_state-IsValid s origin target trap epc v h k =
    write-IsValid _ _ _
      (write-IsValid _ (tval_reg target) _
        (write-IsValid _ (cause_reg target) _ (write-IsValid s (epc_reg target) epc v k)
          (cause_word-lt trap.type))
        h)
      (entered (mode_eq target supervisor) _ origin (read-lt s _ v))

module _ {B : Type 0} (P : B → Type 0) where
  pub handle_trap-IsValid :
      (c : Cpu B) (trap : Trap) (epc : ℕ)
      → IsValid P c
      → trap.val < 2 ^ 64
      → epc < 2 ^ 64
      → IsValid P (handle_trap c trap epc)
  unfolding handle_trap
  handle_trap-IsValid c trap epc v h k = taken (not (is_trap trap.type))
    where
      target : PrivilegeMode
      target = if traps_to_s c.state c.priv_mode trap.type then supervisor else machine

      taken :
          (b : Bool)
          → IsValid P (
              if b then c else record c {
                pc = get_trap_pc (read c.state (tvec_reg target)) (trap_to_cause trap.type);
                state = trap_state c.state c.priv_mode target trap epc;
                priv_mode = target;
              })
      taken true = v
      taken false = record {
        pc_word = get_trap_pc-lt _ _;
        instret_word = v.instret_word;
        words = v.words;
        registers = trap_state-IsValid c.state c.priv_mode target trap epc v.registers h k;
        unit = v.unit;
      }

  pub handle_interrupt-IsValid :
      (c : Cpu B) (addr : ℕ) → IsValid P c → addr < 2 ^ 64 → IsValid P (handle_interrupt c addr)
  unfolding handle_interrupt
  handle_interrupt-IsValid c addr v h = set_state-IsValid P c1 _ valid (woken (nonzero mask))
    where
      t : TrapType
      t = final_interrupt c.state c.priv_mode

      mask : ℕ
      mask = trap_to_mask t

      c1 : Cpu B
      c1 = handle_trap c (record { type = t; val = c.pc }) addr

      valid : IsValid P c1
      valid = handle_trap-IsValid c (record { type = t; val = c.pc }) addr v v.pc_word h

      s : State
      s = write c1.state csr_mip (bit_and (read c.state csr_mip) (bit_not 64 mask))

      s-IsValid : Invariant.IsValid s
      s-IsValid =
          write-IsValid c1.state csr_mip _ valid.registers
            (bit_and-lt _ (bit_not 64 mask) (read-lt c.state csr_mip v.registers))

      woken : (b : Bool) → Invariant.IsValid (if b then set_wfi s false else s)
      woken true = set_wfi-IsValid s false s-IsValid
      woken false = s-IsValid
