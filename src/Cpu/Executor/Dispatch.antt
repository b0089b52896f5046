-- ===== src/Cpu/Executor/Dispatch.antt =====
-- Executor::Exec: the class of an instruction by its opcode.
use rv64_emulator.Common.{ℕ, ◌==◌, some, if◌then◌else◌}
use rv64_emulator.Device.Mmio.{MmioDevice}
use rv64_emulator.Cpu.Decode.Info.{
  DecodeInfo, op_reg, op_imm, op_lui, op_branch, op_store, op_load, op_system, op_auipc, op_jal,
  op_jalr, op_imm32, op_rv32, op_fence, op_amo,
}
use rv64_emulator.Cpu.Hart.{Cpu}
use rv64_emulator.Cpu.Executor.Value.{Exec, ill_trap}
use rv64_emulator.Cpu.Executor.Alu.{reg_type_exec, rv32_type_exec, imm_type_exec, imm32_type_exec}
use rv64_emulator.Cpu.Executor.Branch.{
  lui_type_exec, jal_type_exec, jalr_type_exec, auipc_type_exec, branch_type_exec,
}
use rv64_emulator.Cpu.Executor.Memory.{load_type_exec, store_type_exec}
use rv64_emulator.Cpu.Executor.System.{system_type_exec, fence_type_exec}
use rv64_emulator.Cpu.Executor.Atomic.{amo_type_exec}

-- The class of an opcode.
pub data OpClass : Type 0 where
  reg imm lui branch store load system auipc jal jalr imm32 rv32 fence amo unknown_op : OpClass

unfoldable pub op_class : ℕ → OpClass
op_class op =
    if op == op_reg
    then reg
    else if op == op_imm
    then imm
    else if op == op_lui
    then lui
    else if op == op_branch
    then branch
    else if op == op_store
    then store
    else if op == op_load
    then load
    else if op == op_system
    then system
    else if op == op_auipc
    then auipc
    else if op == op_jal
    then jal
    else if op == op_jalr
    then jalr
    else if op == op_imm32
    then imm32
    else if op == op_rv32
    then rv32
    else if op == op_fence
    then fence
    else if op == op_amo
    then amo
    else unknown_op

-- Executor::Exec
unfoldable pub exec : {B : Type 0} → MmioDevice B → ℕ → Cpu B → DecodeInfo → Exec B
unfolding op_class
exec m now c info = elim (op_class info.op) [
  | reg ↦ reg_type_exec c info
  | imm ↦ imm_type_exec c info
  | lui ↦ lui_type_exec c info
  | branch ↦ branch_type_exec c info
  | store ↦ store_type_exec m c info
  | load ↦ load_type_exec m c info
  | system ↦ system_type_exec now c info
  | auipc ↦ auipc_type_exec c info
  | jal ↦ jal_type_exec c info
  | jalr ↦ jalr_type_exec c info
  | imm32 ↦ imm32_type_exec c info
  | rv32 ↦ rv32_type_exec c info
  | fence ↦ fence_type_exec c
  | amo ↦ amo_type_exec m c info
  | unknown_op ↦ some (ill_trap info.word, c)
]
