-- ===== src/Cpu/Decode/Imm.antt =====
-- GetImm for each descriptor, and GetShamt. An int32_t is its 32-bit pattern.
use rv64_emulator.Common.{ℕ, ◌+◌, ◌-◌, ◌*◌, ◌%◌, ◌^◌, Bool, bit_and, bit_or, ltb, if◌then◌else◌}
use rv64_emulator.Bits.Fields.{field}

-- `int32_t f : w`, sign-extended to 32 bits.
abbrev pub signed_field : ℕ → ℕ → ℕ → ℕ
signed_field v lo w =
    if ltb (field v lo w) (2 ^ (w - 1)) then field v lo w else field v lo w + (2 ^ 32 - 2 ^ w)

-- `<<` on 32 bits
abbrev pub shl32 : ℕ → ℕ → ℕ
shl32 x k = x * 2 ^ k % 2 ^ 32

-- GetImm<BTypeDesc>
unfoldable pub get_imm_b : ℕ → ℕ
get_imm_b word =
    bit_or
      (bit_or (bit_or (shl32 (signed_field word 31 1) 12) (shl32 (field word 7 1) 11))
        (shl32 (field word 25 6) 5))
      (shl32 (field word 8 4) 1)

-- GetImm<JTypeDesc>
unfoldable pub get_imm_j : ℕ → ℕ
get_imm_j word =
    bit_or
      (bit_or (bit_or (shl32 (signed_field word 31 1) 20) (shl32 (field word 12 8) 12))
        (shl32 (field word 20 1) 11))
      (shl32 (field word 21 10) 1)

-- GetImm<ITypeDesc>
unfoldable pub get_imm_i : ℕ → ℕ
get_imm_i word = signed_field word 20 12

-- GetImm<STypeDesc>
unfoldable pub get_imm_s : ℕ → ℕ
get_imm_s word = bit_or (shl32 (signed_field word 25 7) 5) (field word 7 5)

-- GetImm<UTypeDesc>
unfoldable pub get_imm_u : ℕ → ℕ
get_imm_u word = shl32 (signed_field word 12 20) 12

-- GetImm<CsrTypeDesc>
unfoldable pub get_imm_csr : ℕ → ℕ
get_imm_csr word = field word 20 12

-- GetShamt
unfoldable pub get_shamt : ℕ → Bool → ℕ
unfolding get_imm_i
get_shamt word is_rv32 = bit_and (get_imm_i word) (if is_rv32 then 0x1f else 0x3f) % 2 ^ 8
