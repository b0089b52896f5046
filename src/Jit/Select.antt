-- ===== src/Jit/Select.antt =====
-- SelectA64RegInstruction, SelectA64ImmInstruction, SelectA64Reg32Instruction,
-- SelectA64Imm32Instruction and SelectSignExtendInstruction. `l` labels exist before the call.
use rv64_emulator.Common.{ℕ, ◌+◌, ◌-◌, ◌^◌, List, [], ◌∷◌, ◌++◌}
use rv64_emulator.Words.{sext}
use rv64_emulator.Cpu.Decode.Table.{InstToken}
use rv64_emulator.Jit.Asm.{
  Gp, Width, wide, half, fresh, Op3, op_add, op_sub, op_lsl, op_eor, op_lsr, op_asr, op_orr, op_and,
  op_mul, op_smulh, op_umulh, op_sdiv, op_udiv, op_mov, op_neg, op_mvn, op_sxtb, op_sxth, op_sxtw,
  cond_lt, cond_lo, Call, reg3, reg2, mov_imm, msub, cmp, cset, cbz, tbnz, b, bind, Chunk, straight,
}

abbrev one3 : Op3 → Gp → Gp → Gp → Chunk
one3 op rd rs1 rs2 = straight (reg3 op wide rd rs1 rs2 ∷ [])

-- A division: `rest` after the quotient, `on_zero` where the divisor is zero, `last` after both. The
-- labels are those of the zero divisor and of the end.
abbrev divide : ℕ → Width → Op3 → Gp → Gp → Gp → List Call → Call → List Call → Chunk
divide l w op rd rs1 rs2 rest on_zero last = record {
  labels = 2;
  calls =
      cbz w rs2 (fresh l)
      ∷ reg3 op w rd rs1 rs2
      ∷ (rest ++ (b (fresh (l + 1)) ∷ bind (fresh l) ∷ on_zero ∷ bind (fresh (l + 1)) ∷ last));
}

-- The case MULHSU. The labels are unsigned_rs1, zero, signed_rs1 and end.
unfoldable pub select_mulhsu : ℕ → Gp → Gp → Gp → Chunk
select_mulhsu l rd rs1 rs2 = record {
  labels = 4;
  calls =
      cbz wide rs1 (fresh (l + 1))
      ∷ cbz wide rs2 (fresh (l + 1))
      ∷ tbnz rs1 63 (fresh (l + 2))
      ∷ bind (fresh l)
      ∷ reg3 op_umulh wide rd rs1 rs2
      ∷ b (fresh (l + 3))
      ∷ bind (fresh (l + 2))
      ∷ reg2 op_neg wide rd rs1
      ∷ reg3 op_umulh wide rd rd rs2
      ∷ reg2 op_mvn wide rd rd
      ∷ b (fresh (l + 3))
      ∷ bind (fresh (l + 1))
      ∷ mov_imm wide rd 0
      ∷ bind (fresh (l + 3))
      ∷ [];
}

-- SelectA64RegInstruction
unfoldable pub select_reg : ℕ → Gp → Gp → Gp → InstToken → Chunk
unfolding select_mulhsu
select_reg l rd rs1 rs2 InstToken.add = one3 op_add rd rs1 rs2
select_reg l rd rs1 rs2 InstToken.sub = one3 op_sub rd rs1 rs2
select_reg l rd rs1 rs2 InstToken.sll = one3 op_lsl rd rs1 rs2
select_reg l rd rs1 rs2 InstToken.slt = straight (cmp wide rs1 rs2 ∷ cset rd cond_lt ∷ [])
select_reg l rd rs1 rs2 InstToken.sltu = straight (cmp wide rs1 rs2 ∷ cset rd cond_lo ∷ [])
select_reg l rd rs1 rs2 InstToken.xor = one3 op_eor rd rs1 rs2
select_reg l rd rs1 rs2 InstToken.srl = one3 op_lsr rd rs1 rs2
select_reg l rd rs1 rs2 InstToken.sra = one3 op_asr rd rs1 rs2
select_reg l rd rs1 rs2 InstToken.or = one3 op_orr rd rs1 rs2
select_reg l rd rs1 rs2 InstToken.and = one3 op_and rd rs1 rs2
select_reg l rd rs1 rs2 InstToken.mul = one3 op_mul rd rs1 rs2
select_reg l rd rs1 rs2 InstToken.mulh = one3 op_smulh rd rs1 rs2
select_reg l rd rs1 rs2 InstToken.mulhsu = select_mulhsu l rd rs1 rs2
select_reg l rd rs1 rs2 InstToken.mulhu = one3 op_umulh rd rs1 rs2
select_reg l rd rs1 rs2 InstToken.div =
    divide l wide op_sdiv rd rs1 rs2 [] (mov_imm wide rd (2 ^ 64 - 1)) []
select_reg l rd rs1 rs2 InstToken.divu =
    divide l wide op_udiv rd rs1 rs2 [] (mov_imm wide rd (2 ^ 64 - 1)) []
select_reg l rd rs1 rs2 InstToken.rem =
    divide l wide op_sdiv rd rs1 rs2 (msub wide rd rd rs2 rs1 ∷ []) (reg2 op_mov wide rd rs1) []
select_reg l rd rs1 rs2 InstToken.remu =
    divide l wide op_udiv rd rs1 rs2 (msub wide rd rd rs2 rs1 ∷ []) (reg2 op_mov wide rd rs1) []
select_reg l rd rs1 rs2 _ = straight []

-- `mov(rd, imm); op(rd, rs1, rd)`. The immediate is an int32_t pattern, and a move to a wide register
-- takes the 64-bit integer of the same value.
abbrev imm_op : Op3 → Gp → Gp → ℕ → Chunk
imm_op op rd rs1 imm = straight (mov_imm wide rd (sext 32 imm) ∷ reg3 op wide rd rs1 rd ∷ [])

-- SelectA64ImmInstruction
unfoldable pub select_imm : Gp → Gp → ℕ → InstToken → Chunk
select_imm rd rs1 imm InstToken.addi = imm_op op_add rd rs1 imm
select_imm rd rs1 imm InstToken.slti =
    straight (mov_imm wide rd (sext 32 imm) ∷ cmp wide rs1 rd ∷ cset rd cond_lt ∷ [])
select_imm rd rs1 imm InstToken.sltiu =
    straight (mov_imm wide rd (sext 32 imm) ∷ cmp wide rs1 rd ∷ cset rd cond_lo ∷ [])
select_imm rd rs1 imm InstToken.xori = imm_op op_eor rd rs1 imm
select_imm rd rs1 imm InstToken.ori = imm_op op_orr rd rs1 imm
select_imm rd rs1 imm InstToken.andi = imm_op op_and rd rs1 imm
select_imm rd rs1 imm InstToken.slli = imm_op op_lsl rd rs1 imm
select_imm rd rs1 imm InstToken.srli = imm_op op_lsr rd rs1 imm
select_imm rd rs1 imm InstToken.srai = imm_op op_asr rd rs1 imm
select_imm rd rs1 imm _ = straight []

-- `op(wd, ws1, ws2); sxtw(GpX(wd.id()), wd)`
abbrev extended : Gp → Call
extended rd = reg2 op_sxtw wide rd rd

abbrev word_op : Op3 → Gp → Gp → Gp → Chunk
word_op op wd ws1 ws2 = straight (reg3 op half wd ws1 ws2 ∷ extended wd ∷ [])

-- SelectA64Reg32Instruction
unfoldable pub select_reg32 : ℕ → Gp → Gp → Gp → InstToken → Chunk
select_reg32 l wd ws1 ws2 InstToken.addw = word_op op_add wd ws1 ws2
select_reg32 l wd ws1 ws2 InstToken.subw = word_op op_sub wd ws1 ws2
select_reg32 l wd ws1 ws2 InstToken.sllw = word_op op_lsl wd ws1 ws2
select_reg32 l wd ws1 ws2 InstToken.srlw = word_op op_lsr wd ws1 ws2
select_reg32 l wd ws1 ws2 InstToken.sraw = word_op op_asr wd ws1 ws2
select_reg32 l wd ws1 ws2 InstToken.mulw = word_op op_mul wd ws1 ws2
select_reg32 l wd ws1 ws2 InstToken.divw =
    divide l half op_sdiv wd ws1 ws2 [] (mov_imm half wd (2 ^ 32 - 1)) (extended wd ∷ [])
select_reg32 l wd ws1 ws2 InstToken.divuw =
    divide l half op_udiv wd ws1 ws2 [] (mov_imm half wd (2 ^ 32 - 1)) (extended wd ∷ [])
select_reg32 l wd ws1 ws2 InstToken.remw =
    divide l half op_sdiv wd ws1 ws2 (msub half wd wd ws2 ws1 ∷ []) (reg2 op_mov half wd ws1)
      (extended wd ∷ [])
select_reg32 l wd ws1 ws2 InstToken.remuw =
    divide l half op_udiv wd ws1 ws2 (msub half wd wd ws2 ws1 ∷ []) (reg2 op_mov half wd ws1)
      (extended wd ∷ [])
select_reg32 l wd ws1 ws2 _ = straight []

abbrev word_imm_op : Op3 → Gp → Gp → ℕ → Chunk
word_imm_op op wd ws1 imm =
    straight (mov_imm half wd imm ∷ reg3 op half wd ws1 wd ∷ extended wd ∷ [])

-- SelectA64Imm32Instruction
unfoldable pub select_imm32 : Gp → Gp → ℕ → InstToken → Chunk
select_imm32 wd ws1 imm InstToken.addiw = word_imm_op op_add wd ws1 imm
select_imm32 wd ws1 imm InstToken.slliw = word_imm_op op_lsl wd ws1 imm
select_imm32 wd ws1 imm InstToken.srliw = word_imm_op op_lsr wd ws1 imm
select_imm32 wd ws1 imm InstToken.sraiw = word_imm_op op_asr wd ws1 imm
select_imm32 wd ws1 imm _ = straight []

-- SelectSignExtendInstruction
unfoldable pub select_sign_extend : InstToken → Gp → List Call
select_sign_extend InstToken.lb r = reg2 op_sxtb wide r r ∷ []
select_sign_extend InstToken.lh r = reg2 op_sxth wide r r ∷ []
select_sign_extend InstToken.lw r = reg2 op_sxtw wide r r ∷ []
select_sign_extend _ r = []
