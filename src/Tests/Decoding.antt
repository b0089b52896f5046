-- ===== src/Tests/Decoding.antt =====
-- The immediates of a branch.
use rv64_emulator.Common.{◌≡◌, refl}
use rv64_emulator.Bits.Digit.{bit}
use rv64_emulator.Cpu.Decode.Table.{InstToken}
use rv64_emulator.Cpu.Decode.Imm.{get_imm_b}
use rv64_emulator.Cpu.Decode.Info.{imm_of, op_branch}
use rv64_emulator.Cpu.Decode.Formats.{FormatOp, imm_of_bits}

-- `beq x0, x0, -4`
offset : imm_of op_branch InstToken.beq 0xfe000ee3 ≡ 0xfffffffc
unfolding imm_of get_imm_b
offset = refl

imm_of_bits_example : bit (imm_of op_branch InstToken.beq 0xfe000ee3) 11 ≡ 1
imm_of_bits_example = imm_of_bits FormatOp.branch InstToken.beq 0xfe000ee3 11 refl
