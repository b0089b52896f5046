-- ===== src/Cpu/Executor/Keeps/Dispatch.antt =====
-- Executor::Exec leaves a valid hart.
use rv64_emulator.Common.{ℕ, ◌^◌, ◌<◌, some}
use rv64_emulator.Device.Mmio.{MmioDevice}
use rv64_emulator.Device.Mmio.Laws.{HoldsBytes}
use rv64_emulator.Cpu.Decode.Info.{DecodeInfo}
use rv64_emulator.Cpu.Hart.{Cpu}
use rv64_emulator.Cpu.Hart.Valid.{IsValid, KeepsValid}
use rv64_emulator.Cpu.Executor.Value.{ill_trap}
use rv64_emulator.Cpu.Executor.Alu.{reg_type_exec, rv32_type_exec, imm_type_exec, imm32_type_exec}
use rv64_emulator.Cpu.Executor.Branch.{
  lui_type_exec, jal_type_exec, jalr_type_exec, auipc_type_exec, branch_type_exec,
}
use rv64_emulator.Cpu.Executor.Memory.{load_type_exec, store_type_exec}
use rv64_emulator.Cpu.Executor.System.{system_type_exec, fence_type_exec}
use rv64_emulator.Cpu.Executor.Atomic.{amo_type_exec}
use rv64_emulator.Cpu.Executor.Keeps.{
  IsDecoded, reg_type_exec-Keeps, rv32_type_exec-Keeps, imm_type_exec-Keeps, imm32_type_exec-Keeps,
  lui_type_exec-Keeps, jal_type_exec-Keeps, jalr_type_exec-Keeps, auipc_type_exec-Keeps,
  branch_type_exec-Keeps, load_type_exec-Keeps, store_type_exec-Keeps,
}
use rv64_emulator.Cpu.Executor.Keeps.System.{system_type_exec-Keeps, fence_type_exec-Keeps}
use rv64_emulator.Cpu.Executor.Keeps.Atomic.{amo_type_exec-Keeps}
use rv64_emulator.Cpu.Executor.Dispatch.{
  OpClass, reg, imm, lui, branch, store, load, system, auipc, jal, jalr, imm32, rv32, fence, amo,
  unknown_op, op_class, exec,
}

module _ {B : Type 0} (P : B → Type 0) (m : MmioDevice B) (laws : HoldsBytes m P) (now : ℕ)
    (c : Cpu B) (info : DecodeInfo) (z : now < 2 ^ 64) (v : IsValid P c) (d : IsDecoded info) where
  pub exec-Keeps : KeepsValid P (exec m now c info)
  unfolding exec
  exec-Keeps = by_class (op_class info.op)
    where
      by_class :
          (k : OpClass)
          → KeepsValid P (elim k [
            | reg ↦ reg_type_exec c info
            | imm ↦ imm_type_exec c info
            | lui ↦ lui_type_exec c info
            | branch ↦ branch_type_exec c info
            | store ↦ store_type_exec m c info
            | load ↦ load_type_exec m c info
            | system ↦ system_type_exec now c info
            | auipc ↦ auipc_type_exec c info
            | jal ↦ jal_type_exec c info
            | jalr ↦ jalr_type_exec c info
            | imm32 ↦ imm32_type_exec c info
            | rv32 ↦ rv32_type_exec c info
            | fence ↦ fence_type_exec c
            | amo ↦ amo_type_exec m c info
            | unknown_op ↦ some (ill_trap info.word, c)
          ])
      by_class reg = reg_type_exec-Keeps P c info v d
      by_class imm = imm_type_exec-Keeps P c info v d
      by_class lui = lui_type_exec-Keeps P c info v d
      by_class branch = branch_type_exec-Keeps P c info v d
      by_class store = store_type_exec-Keeps P c info v d m laws
      by_class load = load_type_exec-Keeps P c info v d m laws
      by_class system = system_type_exec-Keeps P now c info z v d
      by_class auipc = auipc_type_exec-Keeps P c info v d
      by_class jal = jal_type_exec-Keeps P c info v d
      by_class jalr = jalr_type_exec-Keeps P c info v d
      by_class imm32 = imm32_type_exec-Keeps P c info v d
      by_class rv32 = rv32_type_exec-Keeps P c info v d
      by_class fence = fence_type_exec-Keeps P now c info z v d
      by_class amo = amo_type_exec-Keeps P m laws c info v d
      by_class unknown_op = (d.word_bound, v)
