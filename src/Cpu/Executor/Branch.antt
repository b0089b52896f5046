-- ===== src/Cpu/Executor/Branch.antt =====
-- Jumps, branches and upper immediates: LuiTypeExec, JalTypeExec, JalrTypeExec, AuipcTypeExec and
-- BranchTypeExec.
use rv64_emulator.Common.{ℕ, Bool, not, ltb, ◌==◌, Option, none, some}
use rv64_emulator.Common.{if◌then◌else◌, bit_and}
use rv64_emulator.Words.{sext, add_wrap, slt}
use rv64_emulator.Cpu.Trap.{none_trap}
use rv64_emulator.Cpu.Decode.Table.{InstToken}
use rv64_emulator.Cpu.Decode.Info.{DecodeInfo}
use rv64_emulator.Cpu.Hart.{Cpu, set_xreg}
use rv64_emulator.Cpu.Executor.Value.{Exec, ill_trap}

-- 0xfffffffffffffffe
abbrev pub even_mask : ℕ
even_mask = 0xfffffffffffffffe

-- The comparison of a branch; `none` is the default case.
unfoldable pub branch_taken : InstToken → ℕ → ℕ → Option Bool
branch_taken InstToken.beq a b = some (a == b)
branch_taken InstToken.bne a b = some (not (a == b))
branch_taken InstToken.blt a b = some (slt a b)
branch_taken InstToken.bge a b = some (not (slt a b))
branch_taken InstToken.bltu a b = some (ltb a b)
branch_taken InstToken.bgeu a b = some (not (ltb a b))
branch_taken _ a b = none

module _ {B : Type 0} (c : Cpu B) (info : DecodeInfo) where
  -- `info.pc + info.size`, and a register plus the immediate.
  abbrev pub next_pc : ℕ
  next_pc = add_wrap 64 info.pc info.size

  abbrev pub plus_imm : ℕ → ℕ
  plus_imm v = add_wrap 64 v (sext 32 info.imm)

  -- Executor::LuiTypeExec
  unfoldable pub lui_type_exec : Exec B
  lui_type_exec = some (none_trap, set_xreg c info.rd (sext 32 info.imm))

  -- Executor::JalTypeExec
  unfoldable pub jal_type_exec : Exec B
  jal_type_exec = some (none_trap, set_xreg (record c { pc = plus_imm info.pc }) info.rd next_pc)

  -- Executor::JalrTypeExec
  unfoldable pub jalr_type_exec : Exec B
  jalr_type_exec =
      let new_pc = bit_and (plus_imm (c.xregs info.rs1)) even_mask in
      some (none_trap, set_xreg (record c { pc = new_pc }) info.rd next_pc)

  -- Executor::AuipcTypeExec
  unfoldable pub auipc_type_exec : Exec B
  auipc_type_exec = some (none_trap, set_xreg c info.rd (plus_imm info.pc))

  -- Executor::BranchTypeExec
  unfoldable pub branch_type_exec : Exec B
  unfolding branch_taken
  branch_type_exec = elim (branch_taken info.token (c.xregs info.rs1) (c.xregs info.rs2)) [
    | none ↦ some (ill_trap info.word, c)
    | some taken ↦ some (none_trap, record c { pc = if taken then plus_imm info.pc else next_pc })
  ]
