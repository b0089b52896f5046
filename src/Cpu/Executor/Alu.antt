-- ===== src/Cpu/Executor/Alu.antt =====
-- The integer instructions: RegTypeExec, Rv32TypeExec, ImmTypeExec, Imm32TypeExec.
use rv64_emulator.Common.{ℕ, ◌-◌, ◌/◌, ◌%◌, ◌^◌, ◌&&◌, ◌||◌}
use rv64_emulator.Common.{ltb, ◌==◌, of_bool, if◌then◌else◌, bit_and, bit_or, bit_xor}
use mathlib.Core.Bool.{xor}
use rv64_emulator.Bits.Digit.{bit_not}
use rv64_emulator.Words.{
  to_signed, of_signed, tdiv, tmod, sext, add_wrap, sub_wrap, mul_wrap, slt, sra, abs64,
}
use rv64_emulator.Libs.Arithmetic.{mul_uint64_hi}
use rv64_emulator.Cpu.Decode.Table.{InstToken}
use rv64_emulator.Cpu.Decode.Info.{DecodeInfo}
use rv64_emulator.Cpu.Hart.{Cpu}
use rv64_emulator.Cpu.Executor.Value.{Value, value, illegal, undefined, Exec, write_value}

-- UINT64_MAX, INT64_MIN and -1, INT32_MIN and -1 as patterns.
abbrev pub uint64_max : ℕ
uint64_max = 2 ^ 64 - 1

abbrev pub int64_min : ℕ
int64_min = 2 ^ 63

abbrev pub int32_min : ℕ
int32_min = 2 ^ 31

abbrev pub minus_one32 : ℕ
minus_one32 = 2 ^ 32 - 1

-- A shift of a word of `w` bits by `k`.
abbrev pub shift_of : ℕ → ℕ → ℕ → Value
shift_of w k v = if ltb k w then value v else undefined

-- MULH
unfoldable pub mulh : ℕ → ℕ → ℕ
mulh a b =
    let res = mul_uint64_hi (abs64 a) (abs64 b) in
    if xor (slt a 0) (slt b 0)
    then add_wrap 64 (bit_not 64 res) (of_bool (mul_wrap 64 a b == 0))
    else res

-- MULHSU
unfoldable pub mulhsu : ℕ → ℕ → ℕ
mulhsu a b =
    if a == 0 || b == 0
    then 0
    else if slt a 0
    then bit_not 64 (mul_uint64_hi (abs64 a) b)
    else mul_uint64_hi a b

-- DIV and REM
unfoldable pub div : ℕ → ℕ → ℕ
div a b =
    if b == 0
    then uint64_max
    else if a == int64_min && b == uint64_max
    then int64_min
    else of_signed 64 (tdiv (to_signed 64 a) (to_signed 64 b))

unfoldable pub rem : ℕ → ℕ → ℕ
rem a b =
    if b == 0
    then a
    else if a == int64_min && b == uint64_max
    then 0
    else of_signed 64 (tmod (to_signed 64 a) (to_signed 64 b))

-- The switch of RegTypeExec on the two register values.
unfoldable pub reg_value : InstToken → ℕ → ℕ → Value
unfolding mulh mulhsu div rem
reg_value InstToken.add a b = value (add_wrap 64 a b)
reg_value InstToken.sub a b = value (sub_wrap 64 a b)
reg_value InstToken.sll a b = shift_of 64 b (mul_wrap 64 a (2 ^ b))
reg_value InstToken.slt a b = value (of_bool (slt a b))
reg_value InstToken.sltu a b = value (of_bool (ltb a b))
reg_value InstToken.xor a b = value (bit_xor a b)
reg_value InstToken.srl a b = shift_of 64 b (a / 2 ^ b)
reg_value InstToken.sra a b = shift_of 64 b (sra 64 a b)
reg_value InstToken.or a b = value (bit_or a b)
reg_value InstToken.and a b = value (bit_and a b)
reg_value InstToken.mul a b = value (mul_wrap 64 a b)
reg_value InstToken.mulh a b = value (mulh a b)
reg_value InstToken.mulhsu a b = value (mulhsu a b)
reg_value InstToken.mulhu a b = value (mul_uint64_hi a b)
reg_value InstToken.div a b = value (div a b)
reg_value InstToken.divu a b = value (if b == 0 then uint64_max else a / b)
reg_value InstToken.rem a b = value (rem a b)
reg_value InstToken.remu a b = value (if b == 0 then a else a % b)
reg_value _ a b = illegal

-- The switch of Rv32TypeExec on the low words; `a` and `b` are int32_t patterns.
unfoldable pub rv32_value : InstToken → ℕ → ℕ → Value
rv32_value InstToken.addw a b = value (sext 32 (add_wrap 32 a b))
rv32_value InstToken.subw a b = value (sext 32 (sub_wrap 32 a b))
rv32_value InstToken.sllw a b = shift_of 32 b (sext 32 (mul_wrap 32 a (2 ^ b)))
rv32_value InstToken.srlw a b = shift_of 32 b (sext 32 (a / 2 ^ b))
rv32_value InstToken.sraw a b = shift_of 32 b (sext 32 (sra 32 a b))
rv32_value InstToken.mulw a b = value (sext 32 (mul_wrap 32 a b))
rv32_value InstToken.divw a b = value (
    if b == 0
    then uint64_max
    else if a == int32_min && b == minus_one32
    then sext 32 int32_min
    else sext 32 (of_signed 32 (tdiv (to_signed 32 a) (to_signed 32 b))))
rv32_value InstToken.divuw a b = value (if b == 0 then uint64_max else sext 32 (a / b))
rv32_value InstToken.remw a b = value (
    if b == 0
    then sext 32 a
    else if a == int32_min && b == minus_one32
    then 0
    else sext 32 (of_signed 32 (tmod (to_signed 32 a) (to_signed 32 b))))
rv32_value InstToken.remuw a b = value (sext 32 (if b == 0 then a else a % b))
rv32_value _ a b = illegal

-- The switch of ImmTypeExec on the register and the immediate, an int32_t pattern.

unfoldable pub imm_value : InstToken → ℕ → ℕ → Value
imm_value InstToken.addi a imm = value (add_wrap 64 a (sext 32 imm))
imm_value InstToken.slti a imm = value (of_bool (slt a (sext 32 imm)))
imm_value InstToken.sltiu a imm = value (of_bool (ltb a (sext 32 imm)))
imm_value InstToken.xori a imm = value (bit_xor a (sext 32 imm))
imm_value InstToken.ori a imm = value (bit_or a (sext 32 imm))
imm_value InstToken.andi a imm = value (bit_and a (sext 32 imm))
imm_value InstToken.slli a imm = shift_of 64 imm (mul_wrap 64 a (2 ^ imm))
imm_value InstToken.srli a imm = shift_of 64 imm (a / 2 ^ imm)
imm_value InstToken.srai a imm = shift_of 64 imm (sra 64 a imm)
imm_value _ a imm = illegal

-- The switch of Imm32TypeExec.
unfoldable pub imm32_value : InstToken → ℕ → ℕ → Value
imm32_value InstToken.addiw a imm = value (sext 32 (add_wrap 32 a imm))
imm32_value InstToken.slliw a imm = shift_of 32 imm (sext 32 (mul_wrap 32 a (2 ^ imm)))
imm32_value InstToken.srliw a imm = shift_of 32 imm (sext 32 (a / 2 ^ imm))
imm32_value InstToken.sraiw a imm = shift_of 32 imm (sext 32 (sra 32 a imm))
imm32_value _ a imm = illegal

module _ {B : Type 0} (c : Cpu B) (info : DecodeInfo) where
  -- Executor::RegTypeExec
  unfoldable pub reg_type_exec : Exec B
  unfolding reg_value write_value
  reg_type_exec = write_value c info (reg_value info.token (c.xregs info.rs1) (c.xregs info.rs2))

  -- Executor::Rv32TypeExec
  unfoldable pub rv32_type_exec : Exec B
  unfolding rv32_value write_value
  rv32_type_exec =
      write_value c info
        (rv32_value info.token (c.xregs info.rs1 % 2 ^ 32) (c.xregs info.rs2 % 2 ^ 32))

  -- Executor::ImmTypeExec
  unfoldable pub imm_type_exec : Exec B
  unfolding imm_value write_value
  imm_type_exec = write_value c info (imm_value info.token (c.xregs info.rs1) info.imm)

  -- Executor::Imm32TypeExec
  unfoldable pub imm32_type_exec : Exec B
  unfolding imm32_value write_value
  imm32_type_exec = write_value c info (imm32_value info.token (c.xregs info.rs1 % 2 ^ 32) info.imm)
