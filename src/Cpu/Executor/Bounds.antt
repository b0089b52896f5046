-- ===== src/Cpu/Executor/Bounds.antt =====
-- The values that instructions compute from words are words.
use native.Mathlib.Nat.{div-le_self, mod-le, mod-lt, mul-le-mul}
use rv64_emulator.Common.{
  ℕ, ◌-◌, ◌*◌, ◌/◌, ◌^◌, ◌<◌, ◌≤◌, arith, ◌≡◌, some, Bool, true, false, ltb, of_bool,
}
use rv64_emulator.Bits.Digit.{bit_not}
use rv64_emulator.Bits.Bounds.{bit_and-lt, bit_or-lt, bit_xor-lt}
use rv64_emulator.Words.{ℤ, pos, negsuc, of_signed, sext, sra, slt, to_signed, tdiv, tmod, abs64}
use rv64_emulator.Libs.Arithmetic.{mul_uint64_hi}
use rv64_emulator.Cpu.Decode.Table.{InstToken}
use rv64_emulator.Cpu.Executor.Value.{Value, value, illegal, undefined}
use rv64_emulator.Cpu.Executor.Memory.{load_value}
use rv64_emulator.Cpu.Executor.Atomic.{lr_value}
use rv64_emulator.Cpu.Executor.System.{csr_value}
use rv64_emulator.Cpu.Executor.Alu.{
  int32_min, mulh, mulhsu, div, rem, reg_value, rv32_value, imm_value, imm32_value, shift_of,
}

abbrev pub IsWord : Value → Type 0
IsWord (value v) = v < 2 ^ 64
IsWord illegal = Unit {0}
IsWord undefined = Unit {0}

pub sext-lt : (w v : ℕ) → 0 < 2 ^ w → 2 ^ w ≤ 2 ^ 64 → sext w v < 2 ^ 64
sext-lt w v h k = ground (arith, mod-lt v h)

pub sext_word : (v : ℕ) → sext 32 v < 2 ^ 64
sext_word v = sext-lt 32 v (omega arith) (omega arith)

of_bool-lt : (b : Bool) → of_bool b < 2 ^ 64
of_bool-lt true = omega arith
of_bool-lt false = omega arith

of_signed-lt : (i : ℤ) → of_signed 64 i < 2 ^ 64
of_signed-lt (pos n) = omega arith
of_signed-lt (negsuc n) = omega arith

shift_of-IsWord : (w k v : ℕ) → v < 2 ^ 64 → IsWord (shift_of w k v)
shift_of-IsWord w k v h = ground arith

sra-lt : (a k : ℕ) → a < 2 ^ 64 → sra 64 a k < 2 ^ 64
sra-lt a k h = ground (arith, div-le_self a (2 ^ k))

mul_uint64_hi-lt : (a b : ℕ) → a < 2 ^ 64 → b < 2 ^ 64 → mul_uint64_hi a b < 2 ^ 64
unfolding mul_uint64_hi
mul_uint64_hi-lt a b h k =
    let product : a * b ≤ (2 ^ 64 - 1) * (2 ^ 64 - 1) =
      mul-le-mul {n₂ = 2 ^ 64 - 1} {m₂ = 2 ^ 64 - 1} (omega arith) (omega arith) in
    omega (arith, product)

abs64-lt : (a : ℕ) → a < 2 ^ 64 → abs64 a < 2 ^ 64
abs64-lt a h = ground arith

module _ (a b : ℕ) (h : a < 2 ^ 64) (k : b < 2 ^ 64) where
  mulh-lt : mulh a b < 2 ^ 64
  unfolding mulh
  mulh-lt = ground (arith, mul_uint64_hi-lt (abs64 a) (abs64 b) (abs64-lt a h) (abs64-lt b k))

  mulhsu-lt : mulhsu a b < 2 ^ 64
  unfolding mulhsu
  mulhsu-lt =
      ground (arith, mul_uint64_hi-lt a b h k, mul_uint64_hi-lt (abs64 a) b (abs64-lt a h) k)

  div-lt : div a b < 2 ^ 64
  unfolding div
  div-lt = ground (arith, of_signed-lt (tdiv (to_signed 64 a) (to_signed 64 b)))

  rem-lt : rem a b < 2 ^ 64
  unfolding rem
  rem-lt = ground (arith, of_signed-lt (tmod (to_signed 64 a) (to_signed 64 b)))

  pub reg_value-IsWord : (token : InstToken) → IsWord (reg_value token a b)
  unfolding reg_value
  reg_value-IsWord InstToken.add = omega arith
  reg_value-IsWord InstToken.sub = omega arith
  reg_value-IsWord InstToken.sll = shift_of-IsWord 64 b _ (omega arith)
  reg_value-IsWord InstToken.slt = of_bool-lt (slt a b)
  reg_value-IsWord InstToken.sltu = of_bool-lt (ltb a b)
  reg_value-IsWord InstToken.xor = bit_xor-lt a b h k
  reg_value-IsWord InstToken.srl = shift_of-IsWord 64 b _ (omega (arith, div-le_self a (2 ^ b)))
  reg_value-IsWord InstToken.sra = shift_of-IsWord 64 b _ (sra-lt a b h)
  reg_value-IsWord InstToken.or = bit_or-lt a b h k
  reg_value-IsWord InstToken.and = bit_and-lt a b h
  reg_value-IsWord InstToken.mul = omega arith
  reg_value-IsWord InstToken.mulh = mulh-lt
  reg_value-IsWord InstToken.mulhsu = mulhsu-lt
  reg_value-IsWord InstToken.mulhu = mul_uint64_hi-lt a b h k
  reg_value-IsWord InstToken.div = div-lt
  reg_value-IsWord InstToken.divu = ground (arith, div-le_self a b)
  reg_value-IsWord InstToken.rem = rem-lt
  reg_value-IsWord InstToken.remu = ground (arith, mod-le a b)
  reg_value-IsWord _ = tt

pub rv32_value-IsWord : (token : InstToken) (a b : ℕ) → IsWord (rv32_value token a b)
unfolding rv32_value
rv32_value-IsWord InstToken.addw a b = sext_word _
rv32_value-IsWord InstToken.subw a b = sext_word _
rv32_value-IsWord InstToken.sllw a b = shift_of-IsWord 32 b _ (sext_word _)
rv32_value-IsWord InstToken.srlw a b = shift_of-IsWord 32 b _ (sext_word _)
rv32_value-IsWord InstToken.sraw a b = shift_of-IsWord 32 b _ (sext_word _)
rv32_value-IsWord InstToken.mulw a b = sext_word _
rv32_value-IsWord InstToken.divw a b =
    ground (
      arith,
      sext_word int32_min,
      sext_word (of_signed 32 (tdiv (to_signed 32 a) (to_signed 32 b))),
    )
rv32_value-IsWord InstToken.divuw a b = ground (arith, sext_word (a / b))
rv32_value-IsWord InstToken.remw a b =
    ground (arith, sext_word a, sext_word (of_signed 32 (tmod (to_signed 32 a) (to_signed 32 b))))
rv32_value-IsWord InstToken.remuw a b = sext_word _
rv32_value-IsWord _ a b = tt

pub imm_value-IsWord : (token : InstToken) (a imm : ℕ) → a < 2 ^ 64 → IsWord (imm_value token a imm)
unfolding imm_value
imm_value-IsWord InstToken.addi a imm h = omega arith
imm_value-IsWord InstToken.slti a imm h = of_bool-lt (slt a (sext 32 imm))
imm_value-IsWord InstToken.sltiu a imm h = of_bool-lt (ltb a (sext 32 imm))
imm_value-IsWord InstToken.xori a imm h = bit_xor-lt a (sext 32 imm) h (sext_word imm)
imm_value-IsWord InstToken.ori a imm h = bit_or-lt a (sext 32 imm) h (sext_word imm)
imm_value-IsWord InstToken.andi a imm h = bit_and-lt a (sext 32 imm) h
imm_value-IsWord InstToken.slli a imm h = shift_of-IsWord 64 imm _ (omega arith)
imm_value-IsWord InstToken.srli a imm h =
    shift_of-IsWord 64 imm _ (omega (arith, div-le_self a (2 ^ imm)))
imm_value-IsWord InstToken.srai a imm h = shift_of-IsWord 64 imm _ (sra-lt a imm h)
imm_value-IsWord _ a imm h = tt

pub imm32_value-IsWord : (token : InstToken) (a imm : ℕ) → IsWord (imm32_value token a imm)
unfolding imm32_value
imm32_value-IsWord InstToken.addiw a imm = sext_word _
imm32_value-IsWord InstToken.slliw a imm = shift_of-IsWord 32 imm _ (sext_word _)
imm32_value-IsWord InstToken.srliw a imm = shift_of-IsWord 32 imm _ (sext_word _)
imm32_value-IsWord InstToken.sraiw a imm = shift_of-IsWord 32 imm _ (sext_word _)
imm32_value-IsWord _ a imm = tt

pub load_value-IsWord : (token : InstToken) (v : ℕ) → v < 2 ^ 64 → IsWord (load_value token v)
unfolding load_value
load_value-IsWord InstToken.lb v h = sext-lt 8 v (omega arith) (omega arith)
load_value-IsWord InstToken.lh v h = sext-lt 16 v (omega arith) (omega arith)
load_value-IsWord InstToken.lw v h = sext_word v
load_value-IsWord InstToken.ld v h = h
load_value-IsWord InstToken.lbu v h = h
load_value-IsWord InstToken.lhu v h = h
load_value-IsWord InstToken.lwu v h = h
load_value-IsWord _ v h = tt

pub lr_value-lt : (token : InstToken) (v : ℕ) → v < 2 ^ 64 → lr_value token v < 2 ^ 64
unfolding lr_value
lr_value-lt InstToken.lr_w v h = sext_word v
lr_value-lt _ v h = h

pub csr_value-lt :
    (token : InstToken) (old v imm : ℕ) {val : ℕ}
    → old < 2 ^ 64
    → v < 2 ^ 64
    → imm < 2 ^ 64
    → csr_value token old v imm ≡ some val
    → val < 2 ^ 64
unfolding csr_value
csr_value-lt InstToken.csrrw old v imm h k l e = ground arith
csr_value-lt InstToken.csrrs old v imm h k l e = ground (arith, bit_or-lt v old k h)
csr_value-lt InstToken.csrrc old v imm h k l e = ground (arith, bit_and-lt old (bit_not 64 v) h)
csr_value-lt InstToken.csrrwi old v imm h k l e = ground arith
csr_value-lt InstToken.csrrsi old v imm h k l e = ground (arith, bit_or-lt old imm h l)
csr_value-lt InstToken.csrrci old v imm h k l e = ground (arith, bit_and-lt old (bit_not 64 imm) h)
csr_value-lt _ old v imm h k l e = cc
