-- ===== src/Tests/Emitter.antt =====
-- The emitted code on a host with two operands to compare and as many registers as are named.
use rv64_emulator.Common.{
  ℕ, ◌*◌, ◌/◌, ◌^◌, ◌≡◌, refl, arith, Bool, ltb, of_bool, if◌then◌else◌, ◌==◌,
}
use rv64_emulator.Common.{[], false, bit_and, bit_or, bit_xor, some}
use rv64_emulator.Words.{sext, add_wrap, sub_wrap, mul_wrap, slt}
use rv64_emulator.Cpu.Mode.{machine}
use rv64_emulator.Cpu.Hart.{Cpu, set_xreg}
use rv64_emulator.Cpu.Decode.Table.{InstToken}
use rv64_emulator.Cpu.Decode.Info.{DecodeInfo}
use rv64_emulator.Cpu.Executor.Alu.{imm_type_exec, reg_type_exec}
use rv64_emulator.Jit.Asm.{
  gp, Op3, op_add, op_sub, op_lsl, op_lsr, op_asr, op_eor, op_orr, op_and, op_mul, op_umulh, Cond,
  cond_lt, cond_lo, Call, reg3, mov_imm, cmp, cset,
}
use rv64_emulator.Jit.Map.{a64_reg}
use rv64_emulator.Jit.Emit.{emit_imm, emit_reg}
use rv64_emulator.Jit.Machine.{Host, run, IsA64, Mirrors, lsl_value, lsr_value, asr_value}
use rv64_emulator.Jit.Simulates.{emit_imm_simulates, emit_reg_simulates, emit_addi_in_place}

record Registers : Type 0 where
  value : ℕ → ℕ
  left : ℕ
  right : ℕ

abbrev put : ℕ → ℕ → Registers → Registers
put d v s = record s { value = λ r. if r == d then v else s.value r }

abbrev compute : Op3 → ℕ → ℕ → ℕ
compute op_add a b = add_wrap 64 a b
compute op_sub a b = sub_wrap 64 a b
compute op_lsl a b = lsl_value a b
compute op_lsr a b = lsr_value a b
compute op_asr a b = asr_value a b
compute op_eor a b = bit_xor a b
compute op_orr a b = bit_or a b
compute op_and a b = bit_and a b
compute op_mul a b = mul_wrap 64 a b
compute op_umulh a b = a * b / 2 ^ 64
compute _ a b = 0

abbrev holds : Cond → ℕ → ℕ → Bool
holds cond_lt a b = slt a b
holds cond_lo a b = ltb a b

abbrev effect : Call → Registers → Registers
effect (reg3 op w (gp d) (gp a) (gp b)) s = put d (compute op (s.value a) (s.value b)) s
effect (mov_imm w (gp d) v) s = put d v s
effect (cmp w (gp a) (gp b)) s = record s { left = s.value a; right = s.value b }
effect (cset (gp d) cond) s = put d (of_bool (holds cond s.left s.right)) s
effect _ s = s

abbrev host : Host Registers
host = record { read = λ s r. s.value r; step = effect }

host-IsA64 : IsA64 host
host-IsA64 = record {
  moves = λ s d v r. refl;
  adds = λ s d a b r. refl;
  subtracts = λ s d a b r. refl;
  multiplies = λ s d a b r. refl;
  multiplies_high = λ s d a b r. refl;
  shifts_left = λ s d a b r. refl;
  shifts_right = λ s d a b r. refl;
  shifts_sign = λ s d a b r. refl;
  ands = λ s d a b r. refl;
  ors = λ s d a b r. refl;
  xors = λ s d a b r. refl;
  compares_signed = λ s d a b r. refl;
  compares_unsigned = λ s d a b r. refl;
}

-- Every register of both sides holds 7.
abbrev sevens : Registers
sevens = record { value = λ r. 7; left = 0; right = 0 }

abbrev hart : Cpu ℕ
hart = record {
  pc = 0;
  instret = 0;
  hart_id = 0;
  state = record { wfi = false; csr = λ a. 0 };
  xregs = λ r. 7;
  priv_mode = machine;
  mmu = record { index = 0; cache_hit = 0; cache_miss = 0; tlb = []; bus = 0 };
  reservation = record { addr = 0; size = 0; valid = 0; hart_id = 0 };
}

-- Registers 10, 11 and 12 of the hart are 0, 1 and 2 of the host.
abbrev info : InstToken → ℕ → DecodeInfo
info token rd = record {
  word = 0;
  op = 0;
  rd = rd;
  rs1 = 10;
  rs2 = 12;
  pc = 0;
  imm = 5;
  token = token;
  size = 4;
  mem_size = 0;
}

at_10 : a64_reg 10 ≡ some (gp 0)
unfolding a64_reg
at_10 = refl

at_11 : a64_reg 11 ≡ some (gp 1)
unfolding a64_reg
at_11 = refl

at_12 : a64_reg 12 ≡ some (gp 2)
unfolding a64_reg
at_12 = refl

-- `addi x11, x10, 5`
emit_imm_simulates_example :
    Mirrors host (run host (emit_imm (info InstToken.addi 11)).calls sevens) (set_xreg hart 11 12)
unfolding imm_type_exec
emit_imm_simulates_example =
    emit_imm_simulates host sevens hart (set_xreg hart 11 12) (info InstToken.addi 11) 1 0
      host-IsA64 at_11 at_10 (omega arith) (λ r d e. refl) refl

-- `add x10, x10, x12`
emit_reg_simulates_example :
    Mirrors host (run host (emit_reg (info InstToken.add 10) 0).calls sevens) (set_xreg hart 10 14)
unfolding reg_type_exec
emit_reg_simulates_example =
    emit_reg_simulates host sevens hart (set_xreg hart 10 14) (info InstToken.add 10) 0 0 2 0
      host-IsA64 at_10 at_10 at_12 refl (λ r d e. refl) refl

-- `addi x10, x10, 5` leaves 10, where the interpreter leaves 12.
emit_addi_in_place_example :
    host.read (run host (emit_imm (info InstToken.addi 10)).calls sevens) 0
    ≡ add_wrap 64 (sext 32 5) (sext 32 5)
emit_addi_in_place_example =
    emit_addi_in_place host sevens (info InstToken.addi 10) 0 host-IsA64 at_10 refl refl
