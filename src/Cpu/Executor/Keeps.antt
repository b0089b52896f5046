-- ===== src/Cpu/Executor/Keeps.antt =====
-- Every execution function leaves a valid hart.
pub mod System
pub mod Atomic
pub mod Dispatch
use native.Mathlib.Nat.{mod-lt}
use rv64_emulator.Common.{
  ℕ, ◌+◌, ◌%◌, ◌^◌, ◌<◌, ◌≤◌, ◌≡◌, arith, inl, inr, Bool, true, false, Bool-cases, ◌==◌, not,
  if◌then◌else◌,
}
use rv64_emulator.Common.{
  Option, none, some, Option-cases, List, AllBytes, length, le_bytes, of_le_bytes,
  le_bytes-AllBytes, of_le_bytes-lt, bit_and,
}
use rv64_emulator.Bits.Bounds.{bit_and-lt, set_field-lt}
use rv64_emulator.Words.{sext, add_wrap}
use rv64_emulator.Device.Mmio.{MmioDevice}
use rv64_emulator.Device.Mmio.Laws.{HoldsBytes}
use rv64_emulator.Cpu.Trap.{Trap, none_trap}
use rv64_emulator.Cpu.Csr.Invariant.{write-IsValid, read-lt, set_wfi-IsValid}
use rv64_emulator.Cpu.Csr.Invariant
use rv64_emulator.Cpu.Decode.Info.{DecodeInfo}
use rv64_emulator.Cpu.Hart.{Cpu, AmoReservation, set_xreg, load, store}
use rv64_emulator.Cpu.Hart.Valid.{
  IsValid, KeepsValid, AccessKeeps, set_xreg-IsValid, set_pc-IsValid, set_state-IsValid,
  flush_tlb-Keeps, load-AccessKeeps, store-AccessKeeps,
}
use rv64_emulator.Cpu.Mmu.Access.{Reply, ok, trapped}
use rv64_emulator.Cpu.Mmu.Keeps.{BytesOf}
use rv64_emulator.Cpu.Executor.Value.{Value, value, illegal, undefined, Exec, ill_trap, write_value}
use rv64_emulator.Cpu.Executor.Bounds.{
  IsWord, sext_word, reg_value-IsWord, rv32_value-IsWord, imm_value-IsWord, imm32_value-IsWord,
  load_value-IsWord, lr_value-lt, csr_value-lt,
}
use rv64_emulator.Cpu.Executor.Alu.{reg_type_exec, rv32_type_exec, imm_type_exec, imm32_type_exec}
use rv64_emulator.Cpu.Executor.Branch.{
  lui_type_exec, jal_type_exec, jalr_type_exec, auipc_type_exec, branch_type_exec, branch_taken,
  even_mask, plus_imm,
}
use rv64_emulator.Cpu.Executor.Memory.{load_type_exec, store_type_exec, target_addr, load_value}

-- What decoding promises of an instruction.
pub record IsDecoded (info : DecodeInfo) : Type 0 where
  pub word_bound : info.word < 2 ^ 64
  pub pc_bound : info.pc < 2 ^ 64
  pub rs1_bound : info.rs1 < 2 ^ 64
  pub size_bound : info.mem_size ≤ 8

pub none_trap-lt : none_trap.val < 2 ^ 64
none_trap-lt = omega arith

module _ {B : Type 0} (P : B → Type 0) where
  -- A hart goes on after an access that was granted.
  pub after_access :
      {A : Type 0} (Q : A → Type 0) (r : Option (Reply A × Cpu B)) (go_on : A → Cpu B → Exec B)
      → AccessKeeps P Q r
      → ((a : A) (c1 : Cpu B) → Q a → IsValid P c1 → KeepsValid P (go_on a c1))
      → KeepsValid P (elim r [
        | none ↦ none
        | some (trapped t, c1) ↦ some (t, c1)
        | some (ok a, c1) ↦ go_on a c1
      ])
  after_access Q none go_on h k = tt
  after_access Q (some (trapped t, c1)) go_on h k = h
  after_access Q (some (ok a, c1)) go_on h k = k a c1 h.0 h.1

  -- A test between two results.
  pub either :
      (b : Bool) (x y : Exec B)
      → KeepsValid P x
      → KeepsValid P y
      → KeepsValid P (if b then x else y)
  either true x y h k = h
  either false x y h k = k

  pub loaded-lt : (n : ℕ) (out : List ℕ) → n ≤ 8 → BytesOf P n out → of_le_bytes out < 2 ^ 64
  loaded-lt n out h k = omega (arith, of_le_bytes-lt 8 out k.0 (omega arith))

  module _ (c : Cpu B) (info : DecodeInfo) (v : IsValid P c) (d : IsDecoded info) where
    pub write_value-Keeps :
        (c1 : Cpu B) (val : Value)
        → IsValid P c1
        → IsWord val
        → KeepsValid P (write_value c1 info val)
    unfolding write_value
    write_value-Keeps c1 (value x) v1 h = (none_trap-lt, set_xreg-IsValid P c1 info.rd x v1 h)
    write_value-Keeps c1 illegal v1 h = (d.word_bound, v1)
    write_value-Keeps c1 undefined v1 h = tt

    pub reg_type_exec-Keeps : KeepsValid P (reg_type_exec c info)
    unfolding reg_type_exec
    reg_type_exec-Keeps =
        write_value-Keeps c _ v
          (reg_value-IsWord _ _ (v.words info.rs1) (v.words info.rs2) info.token)

    pub rv32_type_exec-Keeps : KeepsValid P (rv32_type_exec c info)
    unfolding rv32_type_exec
    rv32_type_exec-Keeps = write_value-Keeps c _ v (rv32_value-IsWord info.token _ _)

    pub imm_type_exec-Keeps : KeepsValid P (imm_type_exec c info)
    unfolding imm_type_exec
    imm_type_exec-Keeps =
        write_value-Keeps c _ v (imm_value-IsWord info.token _ info.imm (v.words info.rs1))

    pub imm32_type_exec-Keeps : KeepsValid P (imm32_type_exec c info)
    unfolding imm32_type_exec
    imm32_type_exec-Keeps = write_value-Keeps c _ v (imm32_value-IsWord info.token _ info.imm)

    pub lui_type_exec-Keeps : KeepsValid P (lui_type_exec c info)
    unfolding lui_type_exec
    lui_type_exec-Keeps = (none_trap-lt, set_xreg-IsValid P c info.rd _ v (sext_word info.imm))

    pub auipc_type_exec-Keeps : KeepsValid P (auipc_type_exec c info)
    unfolding auipc_type_exec
    auipc_type_exec-Keeps = (none_trap-lt, set_xreg-IsValid P c info.rd _ v (omega arith))

    jump_to :
        (pc : ℕ)
        → pc < 2 ^ 64
        → KeepsValid P (
            some
              (none_trap, set_xreg (record c { pc = pc }) info.rd (add_wrap 64 info.pc info.size)))
    jump_to pc h = (
      none_trap-lt,
      set_xreg-IsValid P (record c { pc = pc }) info.rd _ (set_pc-IsValid P c pc v h) (omega arith),
    )

    pub jal_type_exec-Keeps : KeepsValid P (jal_type_exec c info)
    unfolding jal_type_exec
    jal_type_exec-Keeps = jump_to (plus_imm c info info.pc) (omega arith)

    pub jalr_type_exec-Keeps : KeepsValid P (jalr_type_exec c info)
    unfolding jalr_type_exec
    jalr_type_exec-Keeps =
        jump_to (bit_and (plus_imm c info (c.xregs info.rs1)) even_mask)
          (bit_and-lt _ even_mask (omega arith))

    pub branch_type_exec-Keeps : KeepsValid P (branch_type_exec c info)
    unfolding branch_type_exec
    branch_type_exec-Keeps = after (branch_taken info.token (c.xregs info.rs1) (c.xregs info.rs2))
      where
        after :
            (o : Option Bool)
            → KeepsValid P (elim o [
              | none ↦ some (ill_trap info.word, c)
              | some taken ↦ some (
                none_trap,
                record c {
                  pc = if taken then plus_imm c info info.pc else add_wrap 64 info.pc info.size;
                },
              )
            ])
        after none = (d.word_bound, v)
        after (some true) = (none_trap-lt, set_pc-IsValid P c _ v (omega arith))
        after (some false) = (none_trap-lt, set_pc-IsValid P c _ v (omega arith))

    module _ (m : MmioDevice B) (laws : HoldsBytes m P) where
      pub load_type_exec-Keeps : KeepsValid P (load_type_exec m c info)
      unfolding load_type_exec
      load_type_exec-Keeps =
          after_access (BytesOf P info.mem_size) _ _
            (load-AccessKeeps P m laws c (target_addr m c info) info.mem_size v (omega arith))
            (λ bytes c1 h v1.
              write_value-Keeps c1 _ v1
                (load_value-IsWord info.token _ (loaded-lt info.mem_size bytes d.size_bound h)))

      pub store_type_exec-Keeps : KeepsValid P (store_type_exec m c info)
      unfolding store_type_exec
      store_type_exec-Keeps =
          after_access (λ u. Unit {0}) _ _
            (store-AccessKeeps P m laws c (target_addr m c info) info.mem_size v (omega arith) _
              (le_bytes-AllBytes 8 (c.xregs info.rs2)))
            (λ u c1 h v1. (none_trap-lt, v1))
