-- ===== src/Tests/Products.antt =====
-- Products and quotients of words with a sign.
use rv64_emulator.Common.{◌+◌, ◌-◌, ◌*◌, ◌^◌, ◌≡◌, arith, of_bool}
use rv64_emulator.Cpu.Executor.Alu.{mulh, mulhsu, div, rem}
use rv64_emulator.Cpu.Executor.Divide.{IsDivision, div-rem}
use rv64_emulator.Cpu.Executor.Multiply.{widen, upper, is_short, mulh_lem, mulhsu_lem}

-- -1 and 2.
mulh_example : mulh (2 ^ 64 - 1) 2 ≡ upper (widen (2 ^ 64 - 1) * widen 2)
mulh_example = mulh_lem (2 ^ 64 - 1) 2 (omega arith) (omega arith)

-- - 2 ^ 63 and 2, whose product has a low word of zero.
mulhsu_example : mulhsu (2 ^ 63) 2 + of_bool (is_short (2 ^ 63) 2) ≡ upper (widen (2 ^ 63) * 2)
mulhsu_example = mulhsu_lem (2 ^ 63) 2 (omega arith) (omega arith)

-- -7 by 2 gives -3, remainder -1.
div-rem_example : IsDivision (2 ^ 64 - 7) 2 (div (2 ^ 64 - 7) 2) (rem (2 ^ 64 - 7) 2)
div-rem_example = div-rem (2 ^ 64 - 7) 2 (omega arith) (omega arith)
