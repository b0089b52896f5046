-- ===== src/Jit/Jumps.antt =====
-- EmitLui, EmitAuipc, EmitJal and EmitJalr: the results that depend on the address of the instruction.
use rv64_emulator.Common.{ℕ, ◌+◌, ◌%◌, ◌^◌}
use rv64_emulator.Common.{List, [], ◌∷◌, ◌++◌, Option, none, some}
use rv64_emulator.Words.{sext, add_wrap}
use rv64_emulator.Cpu.Decode.Info.{DecodeInfo}
use rv64_emulator.Jit.Asm.{
  Gp, gp, wide, xreg, pc_field, stack, op_add, op_and, Call, reg3, mov_imm, imm3, ldr, str, Chunk,
  straight,
}
use rv64_emulator.Jit.Map.{a64_reg}
use rv64_emulator.Jit.Emit.{
  alloc, free, or_scratch, load_source, restore_source, unless_x0, rs1_or_scratch,
}

module _ (info : DecodeInfo) where
  -- JitEmitter::EmitLui
  unfoldable pub emit_lui : Chunk
  emit_lui = unless_x0 info (
      straight (elim (a64_reg info.rd) [
        | some rd ↦ mov_imm wide rd (sext 32 info.imm) ∷ []
        | none ↦
            alloc 16
            ∷ str wide (gp 0) (stack 0)
            ∷ mov_imm wide (gp 0) (sext 32 info.imm)
            ∷ str wide (gp 0) (xreg info.rd)
            ∷ ldr wide (gp 0) (stack 0)
            ∷ free 16
            ∷ []
      ]))

  -- The addresses that EmitJal and EmitJalr store.
  abbrev pub link : ℕ
  link = add_wrap 64 info.pc info.size

  -- JitEmitter::EmitJal
  unfoldable pub emit_jal : Chunk
  emit_jal =
      let new_pc = add_wrap 64 info.pc (sext 32 info.imm) in
      straight (elim (a64_reg info.rd) [
        | some rd ↦ mov_imm wide rd new_pc ∷ str wide rd pc_field ∷ mov_imm wide rd link ∷ []
        | none ↦
            alloc 16
            ∷ str wide (gp 0) (stack 0)
            ∷ mov_imm wide (gp 0) new_pc
            ∷ str wide (gp 0) pc_field
            ∷ mov_imm wide (gp 0) link
            ∷ str wide (gp 0) (xreg info.rd)
            ∷ ldr wide (gp 0) (stack 0)
            ∷ free 16
            ∷ []
      ])

  -- What EmitJalr emits for its two registers.
  abbrev pub jalr_body : Gp → Gp → List Call
  jalr_body rd rs1 =
      mov_imm wide rd (sext 32 info.imm)
      ∷ reg3 op_add wide rd rd rs1
      ∷ imm3 op_and wide rd rd 0xfffffffffffffffe
      ∷ str wide rd pc_field
      ∷ mov_imm wide rd link
      ∷ []

  abbrev pub jalr_frame : List Call
  jalr_frame =
      let rd = a64_reg info.rd in
      let rs1 = a64_reg info.rs1 in
      alloc 16
      ∷ (load_source rs1 1 info.rs1 8
          ++ (load_source rd 0 info.rd 0
              ++ (jalr_body (or_scratch rd (gp 0)) (rs1_or_scratch info)
                  ++ (write_back rd ++ (restore_source rs1 1 8 ++ (free 16 ∷ []))))))
    where
      write_back : Option Gp → List Call
      write_back none = str wide (gp 0) (xreg info.rd) ∷ ldr wide (gp 0) (stack 0) ∷ []
      write_back (some r) = []

  -- JitEmitter::EmitJalr
  unfoldable pub emit_jalr : Chunk
  emit_jalr = straight (elim (a64_reg info.rd) [
    | none ↦ jalr_frame
    | some rd ↦ elim (a64_reg info.rs1) [ none ↦ jalr_frame | some rs1 ↦ jalr_body rd rs1 ]
  ])

-- JitEmitter::EmitAuipc. The sum is stored into an int32_t.
unfoldable pub emit_auipc : DecodeInfo → Chunk
unfolding emit_lui
emit_auipc info = emit_lui (record info { imm = (info.imm + info.pc) % 2 ^ 32 })
