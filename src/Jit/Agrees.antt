-- ===== src/Jit/Agrees.antt =====
-- The emitted code does what the interpreter does, where all registers are in the host's.
use rv64_emulator.Common.{
  ℕ, ◌/◌, ◌%◌, ◌^◌, ◌≡◌, ◌≢◌, ◌<◌, refl, sym, ap, ◌∙◌, arith, Bool, true, false, inl, inr,
}
use rv64_emulator.Common.{ltb, ltb→lt, of_bool, ◌==◌, Bool-cases, if◌then◌else◌}
use rv64_emulator.Common.{bit_and, bit_or, bit_xor}
use rv64_emulator.Words.{sext, add_wrap, mul_wrap, slt, sra}
use rv64_emulator.Libs.Arithmetic.{mul_uint64_hi}
use rv64_emulator.Cpu.Decode.Table.{InstToken}
use rv64_emulator.Cpu.Executor.Value.{value, undefined}
use rv64_emulator.Cpu.Executor.Alu.{reg_value, imm_value, shift_of}
use rv64_emulator.Jit.Asm.{
  gp, wide, reg3, mov_imm, cmp, cset, Op3, op_add, op_lsl, op_lsr, op_asr, op_eor, op_orr, op_and,
  Cond, cond_lt, cond_lo,
}
use rv64_emulator.Jit.Select.{select_imm, select_reg}
use rv64_emulator.Jit.Machine.{
  Host, run, Sets, Computes, Compares, lsl_value, lsr_value, asr_value, IsA64,
}

value_injective : {v w : ℕ} → value v ≡ value w → v ≡ w
value_injective e = cc

-- A shift that the interpreter defines has an amount below 64, which the host takes as it is.
defined_shift : (k v w : ℕ) → shift_of 64 k w ≡ value v → (k < 64) × (w ≡ v)
defined_shift k v w e = elim (Bool-cases (ltb k 64)) [
  | inl y ↦
      (ltb→lt k 64 y, value_injective (ap (λ t. if t then value w else undefined) (sym y) ∙ e))
  | inr n ↦ ground arith
]

small_amount : (k : ℕ) → k < 64 → sext 32 k % 64 ≡ k
small_amount k h = ground arith

small_shift : (k : ℕ) (f : ℕ → ℕ) (v : ℕ) → shift_of 64 k (f k) ≡ value v → f (sext 32 k % 64) ≡ v
small_shift k f v e = let (small, q) = defined_shift k v (f k) e in ap f (small_amount k small) ∙ q

masked_shift : (k : ℕ) (f : ℕ → ℕ) (v : ℕ) → shift_of 64 k (f k) ≡ value v → f (k % 64) ≡ v
masked_shift k f v e =
    let (small, q) = defined_shift k v (f k) e in let m : k % 64 ≡ k = omega arith in ap f m ∙ q

module _ {S : Type 0} (h : Host S) (laws : IsA64 h) (s : S) (d a : ℕ) (ne : a ≢ d) (imm : ℕ) where
  -- The immediate is in `d`, and the source is as it was.
  abbrev moved : S
  moved = h.step (mov_imm wide (gp d) (sext 32 imm)) s

  reads_source : h.read (h.step (mov_imm wide (gp d) (sext 32 imm)) s) a ≡ h.read s a
  reads_source = ground (arith, laws.moves s d (sext 32 imm) a)

  reads_imm : h.read (h.step (mov_imm wide (gp d) (sext 32 imm)) s) d ≡ sext 32 imm
  reads_imm = laws.moves s d (sext 32 imm) d ∙ ground arith

  -- What follows the move sets `d` to its result.
  after_move :
      (s' : S) (w v : ℕ)
      → Sets h d w (h.step (mov_imm wide (gp d) (sext 32 imm)) s) s'
      → w ≡ v
      → Sets h d v s s'
  after_move s' w v set q r = set r ∙ elim (Bool-cases (r == d)) [
    | inl e ↦ rw e q
    | inr e ↦ rw e (laws.moves s d (sext 32 imm) r ∙ rw e refl)
  ]

  operands :
      (f : ℕ → ℕ → ℕ) (v : ℕ)
      → f (h.read s a) (sext 32 imm) ≡ v
      → f
          (h.read (h.step (mov_imm wide (gp d) (sext 32 imm)) s) a)
          (h.read (h.step (mov_imm wide (gp d) (sext 32 imm)) s) d)
        ≡ v
  operands f v q = rw (reads_source, reads_imm) q

  after_op :
      (op : Op3) (f : ℕ → ℕ → ℕ) (v : ℕ)
      → Computes h op f
      → f (h.read s a) (sext 32 imm) ≡ v
      → Sets h d v s (
          h.step (reg3 op wide (gp d) (gp a) (gp d)) (h.step (mov_imm wide (gp d) (sext 32 imm)) s))
  after_op op f v c q = after_move _ _ v (c moved d a d) (operands f v q)

  after_test :
      (cond : Cond) (test : ℕ → ℕ → Bool) (v : ℕ)
      → Compares h cond test
      → of_bool (test (h.read s a) (sext 32 imm)) ≡ v
      → Sets h d v s (
          h.step
            (cset (gp d) cond)
            (h.step (cmp wide (gp a) (gp d)) (h.step (mov_imm wide (gp d) (sext 32 imm)) s)))
  after_test cond test v c q =
      after_move _ _ v (c moved d a d) (operands (λ x y. of_bool (test x y)) v q)

  pub imm_case :
      (token : InstToken) (v : ℕ)
      → imm_value token (h.read s a) imm ≡ value v
      → Sets h d v s (run h (select_imm (gp d) (gp a) imm token).calls s)
  unfolding imm_value select_imm
  imm_case InstToken.addi v e = after_op op_add (add_wrap 64) v laws.adds (value_injective e)
  imm_case InstToken.slti v e = after_test cond_lt slt v laws.compares_signed (value_injective e)
  imm_case InstToken.sltiu v e = after_test cond_lo ltb v laws.compares_unsigned (value_injective e)
  imm_case InstToken.xori v e = after_op op_eor bit_xor v laws.xors (value_injective e)
  imm_case InstToken.ori v e = after_op op_orr bit_or v laws.ors (value_injective e)
  imm_case InstToken.andi v e = after_op op_and bit_and v laws.ands (value_injective e)
  imm_case InstToken.slli v e =
      after_op op_lsl lsl_value v laws.shifts_left
        (small_shift imm (λ k. mul_wrap 64 (h.read s a) (2 ^ k)) v e)
  imm_case InstToken.srli v e =
      after_op op_lsr lsr_value v laws.shifts_right (small_shift imm (λ k. h.read s a / 2 ^ k) v e)
  imm_case InstToken.srai v e =
      after_op op_asr asr_value v laws.shifts_sign
        (small_shift imm (λ k. sra 64 (h.read s a) k) v e)
  imm_case _ v e = cc

-- The tokens of RegTypeExec that one instruction of the host, or a comparison, carries out.
abbrev pub is_direct : InstToken → Bool
is_direct InstToken.mulh = false
is_direct InstToken.mulhsu = false
is_direct InstToken.div = false
is_direct InstToken.divu = false
is_direct InstToken.rem = false
is_direct InstToken.remu = false
is_direct _ = true

module _ {S : Type 0} (h : Host S) (laws : IsA64 h) (s : S) (d a b l : ℕ) where
  Sets-value : (v w : ℕ) (s' : S) → Sets h d w s s' → w ≡ v → Sets h d v s s'
  Sets-value v w s' set q r = set r ∙ ap (λ x. if r == d then x else h.read s r) q

  pub reg_case :
      (token : InstToken) (v : ℕ)
      → is_direct token ≡ true
      → reg_value token (h.read s a) (h.read s b) ≡ value v
      → Sets h d v s (run h (select_reg l (gp d) (gp a) (gp b) token).calls s)
  unfolding reg_value select_reg mul_uint64_hi
  reg_case InstToken.add v t e = Sets-value v _ _ (laws.adds s d a b) (value_injective e)
  reg_case InstToken.sub v t e = Sets-value v _ _ (laws.subtracts s d a b) (value_injective e)
  reg_case InstToken.sll v t e =
      Sets-value v _ _ (laws.shifts_left s d a b)
        (masked_shift (h.read s b) (λ k. mul_wrap 64 (h.read s a) (2 ^ k)) v e)
  reg_case InstToken.slt v t e = Sets-value v _ _ (laws.compares_signed s d a b) (value_injective e)
  reg_case InstToken.sltu v t e =
      Sets-value v _ _ (laws.compares_unsigned s d a b) (value_injective e)
  reg_case InstToken.xor v t e = Sets-value v _ _ (laws.xors s d a b) (value_injective e)
  reg_case InstToken.srl v t e =
      Sets-value v _ _ (laws.shifts_right s d a b)
        (masked_shift (h.read s b) (λ k. h.read s a / 2 ^ k) v e)
  reg_case InstToken.sra v t e =
      Sets-value v _ _ (laws.shifts_sign s d a b)
        (masked_shift (h.read s b) (λ k. sra 64 (h.read s a) k) v e)
  reg_case InstToken.or v t e = Sets-value v _ _ (laws.ors s d a b) (value_injective e)
  reg_case InstToken.and v t e = Sets-value v _ _ (laws.ands s d a b) (value_injective e)
  reg_case InstToken.mul v t e = Sets-value v _ _ (laws.multiplies s d a b) (value_injective e)
  reg_case InstToken.mulhu v t e =
      Sets-value v _ _ (laws.multiplies_high s d a b) (value_injective e)
  reg_case _ v t e = cc
