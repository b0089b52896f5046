-- ===== src/Jit/Machine.antt =====
-- A host that runs the emitted calls: its registers and steps are parameters, and the laws are the
-- documented effect of the instructions on 64-bit registers.
use rv64_emulator.Common.{ℕ, ◌*◌, ◌/◌, ◌%◌, ◌^◌, ◌≡◌, Bool, ltb, of_bool, ◌==◌, if◌then◌else◌}
use rv64_emulator.Common.{List, [], ◌∷◌, bit_and, bit_or, bit_xor, some}
use rv64_emulator.Words.{add_wrap, sub_wrap, mul_wrap, slt, sra}
use rv64_emulator.Cpu.Hart.{Cpu}
use rv64_emulator.Jit.Asm.{
  gp, wide, Op3, op_add, op_sub, op_lsl, op_lsr, op_asr, op_eor, op_orr, op_and, op_mul, op_umulh,
  Cond, cond_lt, cond_lo, Call, reg3, mov_imm, cmp, cset,
}
use rv64_emulator.Jit.Map.{a64_reg}

-- A host with states in S.
pub record Host (S : Type 0) : Type 0 where
  pub read : S → ℕ → ℕ
  pub step : Call → S → S

abbrev pub run : {S : Type 0} → Host S → List Call → S → S
run h [] s = s
run h (c ∷ cs) s = run h cs (h.step c s)

-- After the step from `s` to `s'` register `d` has the value and the others are as they were.
abbrev pub Sets : {S : Type 0} → Host S → ℕ → ℕ → S → S → Type 0
Sets h d v s s' = (r : ℕ) → h.read s' r ≡ (if r == d then v else h.read s r)

-- The effect of a method with three registers.
abbrev pub Computes : {S : Type 0} → Host S → Op3 → (ℕ → ℕ → ℕ) → Type 0
Computes {S} h op f =
    (s : S) (d a b : ℕ)
    → Sets h d (f (h.read s a) (h.read s b)) s (h.step (reg3 op wide (gp d) (gp a) (gp b)) s)

abbrev pub Compares : {S : Type 0} → Host S → Cond → (ℕ → ℕ → Bool) → Type 0
Compares {S} h cond test =
    (s : S) (d a b : ℕ)
    → Sets h d (of_bool (test (h.read s a) (h.read s b))) s
        (h.step (cset (gp d) cond) (h.step (cmp wide (gp a) (gp b)) s))

-- A shift takes its amount modulo 64.
abbrev pub lsl_value : ℕ → ℕ → ℕ
lsl_value a b = mul_wrap 64 a (2 ^ (b % 64))

abbrev pub lsr_value : ℕ → ℕ → ℕ
lsr_value a b = a / 2 ^ (b % 64)

abbrev pub asr_value : ℕ → ℕ → ℕ
asr_value a b = sra 64 a (b % 64)

-- The documented effect of each method that the theorems need.
pub record IsA64 {S : Type 0} (h : Host S) : Type 0 where
  pub moves : (s : S) (d v : ℕ) → Sets h d v s (h.step (mov_imm wide (gp d) v) s)
  pub adds : Computes h op_add (add_wrap 64)
  pub subtracts : Computes h op_sub (sub_wrap 64)
  pub multiplies : Computes h op_mul (mul_wrap 64)
  pub multiplies_high : Computes h op_umulh (λ a b. a * b / 2 ^ 64)
  pub shifts_left : Computes h op_lsl lsl_value
  pub shifts_right : Computes h op_lsr lsr_value
  pub shifts_sign : Computes h op_asr asr_value
  pub ands : Computes h op_and bit_and
  pub ors : Computes h op_orr bit_or
  pub xors : Computes h op_eor bit_xor
  pub compares_signed : Compares h cond_lt slt
  pub compares_unsigned : Compares h cond_lo ltb

-- Every register of the hart that has one of the host is in it.
abbrev pub Mirrors : {S B : Type 0} → Host S → S → Cpu B → Type 0
Mirrors h s c = (r d : ℕ) → a64_reg r ≡ some (gp d) → h.read s d ≡ c.xregs r
