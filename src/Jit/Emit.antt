-- ===== src/Jit/Emit.antt =====
-- EmitReg, EmitReg32, EmitImm and EmitImm32. A register of the hart that has none of the host is read
-- from and written to the hart's record through a scratch register, which the stack keeps.
use rv64_emulator.Common.{ℕ, ◌==◌, if◌then◌else◌}
use rv64_emulator.Common.{List, [], ◌∷◌, ◌++◌, Option, none, some}
use rv64_emulator.Cpu.Decode.Info.{DecodeInfo}
use rv64_emulator.Jit.Asm.{
  Gp, gp, sp, wide, xreg, stack, op_add, op_sub, Call, imm3, ldr, str, Chunk, straight, around,
}
use rv64_emulator.Jit.Map.{a64_reg}
use rv64_emulator.Jit.Select.{select_reg, select_imm, select_reg32, select_imm32}

-- The stack is grown and shrunk by whole frames.
abbrev pub alloc : ℕ → Call
alloc n = imm3 op_sub wide sp sp n

abbrev pub free : ℕ → Call
free n = imm3 op_add wide sp sp n

abbrev pub or_scratch : Option Gp → Gp → Gp
or_scratch none scratch = scratch
or_scratch (some r) scratch = r

-- A source that is in the hart's record goes through a scratch register, saved in the frame.
abbrev pub load_source : Option Gp → ℕ → ℕ → ℕ → List Call
load_source none scratch rv slot =
    str wide (gp scratch) (stack slot) ∷ ldr wide (gp scratch) (xreg rv) ∷ []
load_source (some r) scratch rv slot = []

abbrev pub restore_source : Option Gp → ℕ → ℕ → List Call
restore_source none scratch slot = ldr wide (gp scratch) (stack slot) ∷ []
restore_source (some r) scratch slot = []

-- The operation on its destination, or on x0 and then into the hart's record.
abbrev pub with_target : Option Gp → ℕ → (Gp → Chunk) → Chunk
with_target (some rd) rv select = select rd
with_target none rv select =
    around (str wide (gp 0) (stack 0) ∷ []) (select (gp 0))
      (str wide (gp 0) (xreg rv) ∷ ldr wide (gp 0) (stack 0) ∷ [])

module _ (info : DecodeInfo) where
  -- The source operands, or the scratch registers for them.
  abbrev pub rs1_or_scratch : Gp
  rs1_or_scratch = or_scratch (a64_reg info.rs1) (gp 1)

  abbrev pub rs2_or_scratch : Gp
  rs2_or_scratch = or_scratch (a64_reg info.rs2) (gp 2)

  -- The common shape of EmitReg and EmitReg32 where a register has none of the host.
  abbrev pub through_frame3 : (Gp → Gp → Gp → Chunk) → Chunk
  through_frame3 select =
      let rs1 = a64_reg info.rs1 in
      let rs2 = a64_reg info.rs2 in
      around (alloc 32 ∷ (load_source rs2 2 info.rs2 16 ++ load_source rs1 1 info.rs1 8))
        (with_target (a64_reg info.rd) info.rd (λ rd. select rd rs1_or_scratch rs2_or_scratch))
        (restore_source rs1 1 8 ++ (restore_source rs2 2 16 ++ (free 32 ∷ [])))

  -- The test that all three are in registers of the host.
  abbrev pub emit3 : (Gp → Gp → Gp → Chunk) → Chunk
  emit3 select = elim (a64_reg info.rd) [
    | none ↦ through_frame3 select
    | some rd ↦ elim (a64_reg info.rs1) [
      | none ↦ through_frame3 select
      | some rs1 ↦ elim (a64_reg info.rs2) [
        | none ↦ through_frame3 select
        | some rs2 ↦ select rd rs1 rs2
      ]
    ]
  ]

  -- The same for EmitImm and EmitImm32.
  abbrev pub through_frame2 : (Gp → Gp → Chunk) → Chunk
  through_frame2 select =
      let rs1 = a64_reg info.rs1 in
      around (alloc 16 ∷ load_source rs1 1 info.rs1 8)
        (with_target (a64_reg info.rd) info.rd (λ rd. select rd rs1_or_scratch))
        (restore_source rs1 1 8 ++ (free 16 ∷ []))

  abbrev pub emit2 : (Gp → Gp → Chunk) → Chunk
  emit2 select = elim (a64_reg info.rd) [
    | none ↦ through_frame2 select
    | some rd ↦ elim (a64_reg info.rs1) [ none ↦ through_frame2 select | some rs1 ↦ select rd rs1 ]
  ]

  -- A write to x0 emits nothing.
  abbrev pub unless_x0 : Chunk → Chunk
  unless_x0 c = if info.rd == 0 then straight [] else c

  -- JitEmitter::EmitReg
  unfoldable pub emit_reg : ℕ → Chunk
  emit_reg l = unless_x0 (emit3 (λ rd rs1 rs2. select_reg l rd rs1 rs2 info.token))

  -- JitEmitter::EmitReg32
  unfoldable pub emit_reg32 : ℕ → Chunk
  emit_reg32 l = unless_x0 (emit3 (λ rd rs1 rs2. select_reg32 l rd rs1 rs2 info.token))

  -- JitEmitter::EmitImm
  unfoldable pub emit_imm : Chunk
  emit_imm = unless_x0 (emit2 (λ rd rs1. select_imm rd rs1 info.imm info.token))

  -- JitEmitter::EmitImm32
  unfoldable pub emit_imm32 : Chunk
  emit_imm32 = unless_x0 (emit2 (λ rd rs1. select_imm32 rd rs1 info.imm info.token))
