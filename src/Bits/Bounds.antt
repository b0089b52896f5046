-- ===== src/Bits/Bounds.antt =====
-- Words stay words under `&`, `|`, `^` and a write of a bit-field.
use rv64_emulator.Common.{ℕ, ◌+◌, ◌^◌, ◌<◌, ◌≤◌, arith, bit_and, bit_or, bit_xor}
use rv64_emulator.Bits.Digit.{bit-bit_and, bit-bit_or, bit-bit_xor}
use rv64_emulator.Bits.Fields.{set_field, lt_of_bits, bit_of_lt, bit-set_field}

pub bit_and-lt : (val mask : ℕ) → val < 2 ^ 64 → bit_and val mask < 2 ^ 64
bit_and-lt val mask h =
    lt_of_bits 64 (bit_and val mask)
      λ i le. omega (arith, bit-bit_and val mask i, bit_of_lt 64 val i h le)

pub bit_or-lt : (a b : ℕ) → a < 2 ^ 64 → b < 2 ^ 64 → bit_or a b < 2 ^ 64
bit_or-lt a b h k =
    lt_of_bits 64 (bit_or a b)
      λ i le. omega (arith, bit-bit_or a b i, bit_of_lt 64 a i h le, bit_of_lt 64 b i k le)

pub bit_xor-lt : (a b : ℕ) → a < 2 ^ 64 → b < 2 ^ 64 → bit_xor a b < 2 ^ 64
bit_xor-lt a b h k =
    lt_of_bits 64 (bit_xor a b)
      λ i le. omega (arith, bit-bit_xor a b i, bit_of_lt 64 a i h le, bit_of_lt 64 b i k le)

pub set_field-lt : (v lo w x : ℕ) → v < 2 ^ 64 → lo + w ≤ 64 → set_field v lo w x < 2 ^ 64
set_field-lt v lo w x h fits =
    lt_of_bits 64 (set_field v lo w x)
      λ i le. ground (arith, bit-set_field v lo w x i, bit_of_lt 64 v i h le)
