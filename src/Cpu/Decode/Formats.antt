-- ===== src/Cpu/Decode/Formats.antt =====
-- GetImm against the formats of the architecture.
use rv64_emulator.Common.{
  ℕ, ◌+◌, ◌-◌, ltb, leb, ◌==◌, if◌then◌else◌, Bool, true, false, Option, none, some,
}
use rv64_emulator.Common.{◌≡◌, refl, ap, ◌∙◌, arith}
use rv64_emulator.Bits.Digit.{bit, bit-bit_or}
use rv64_emulator.Cpu.Decode.Table.{InstToken}
use rv64_emulator.Cpu.Decode.Imm.{
  signed_field, shl32, get_imm_b, get_imm_i, get_imm_j, get_imm_s, get_imm_u,
}
use rv64_emulator.Cpu.Decode.Info.{imm_of, imm_or_shamt}
use rv64_emulator.Cpu.Decode.Info
use rv64_emulator.Cpu.Decode.Pieces.{
  bit-placed, bit-sign_from, bit-shl32, bit-field_at, bit-signed_field,
}

-- The immediate formats, and the immediate of each.
pub data Format : Type 0 where
  i_type : Format
  s_type : Format
  b_type : Format
  u_type : Format
  j_type : Format

abbrev get_imm : Format → ℕ → ℕ
get_imm i_type word = get_imm_i word
get_imm s_type word = get_imm_s word
get_imm b_type word = get_imm_b word
get_imm u_type word = get_imm_u word
get_imm j_type word = get_imm_j word

-- The bit of the instruction that bit `i` of an immediate of 32 bits is taken from, as the manual
-- tells for each format; a bit without a source is 0.
abbrev pub imm_source : Format → ℕ → Option ℕ
imm_source i_type i = if ltb i 11 then some (20 + i) else some 31
imm_source s_type i =
    if ltb i 5 then some (7 + i) else if ltb i 12 then some (25 + (i - 5)) else some 31
imm_source b_type i =
    if i == 0
    then none
    else if ltb i 5
    then some (8 + (i - 1))
    else if ltb i 11
    then some (25 + (i - 5))
    else if i == 11
    then some 7
    else some 31
imm_source u_type i = if ltb i 12 then none else if ltb i 31 then some (12 + (i - 12)) else some 31
imm_source j_type i =
    if i == 0
    then none
    else if ltb i 11
    then some (21 + (i - 1))
    else if i == 11
    then some 20
    else if ltb i 20
    then some (12 + (i - 12))
    else some 31

abbrev pub selected : ℕ → Option ℕ → ℕ
selected word none = 0
selected word (some n) = bit word n

sign_bit : (word i : ℕ) → bit (signed_field word 31 1) i ≡ (if ltb i 32 then bit word 31 else 0)
sign_bit word i = ground (arith, bit-signed_field word 31 0 i (omega arith) refl)

i_bits :
    (word i : ℕ)
    → bit (get_imm_i word) i ≡ (if ltb i 32 then selected word (imm_source i_type i) else 0)
unfolding get_imm_i
i_bits word i = ground (arith, bit-signed_field word 20 11 i (omega arith) refl)

u_bits :
    (word i : ℕ)
    → bit (get_imm_u word) i ≡ (if ltb i 32 then selected word (imm_source u_type i) else 0)
unfolding get_imm_u
u_bits word i = ground (
  arith,
  bit-shl32 (signed_field word 12 20) 12 i,
  bit-signed_field word 12 19 (i - 12) (omega arith) refl,
)

s_upper :
    (word i : ℕ)
    → bit (shl32 (signed_field word 25 7) 5) i ≡ (
        if ltb i 32
        then (if leb 5 i then (if ltb i 12 then bit word (25 + (i - 5)) else bit word 31) else 0)
        else 0)
s_upper word i = ground (
  arith,
  bit-shl32 (signed_field word 25 7) 5 i,
  bit-signed_field word 25 6 (i - 5) (omega arith) refl,
)

s_bits :
    (word i : ℕ)
    → bit (get_imm_s word) i ≡ (if ltb i 32 then selected word (imm_source s_type i) else 0)
unfolding get_imm_s
s_bits word i = rw (bit-bit_or, s_upper, bit-field_at) (ground arith)

b_bits :
    (word i : ℕ)
    → bit (get_imm_b word) i ≡ (if ltb i 32 then selected word (imm_source b_type i) else 0)
unfolding get_imm_b
b_bits word i =
    rw
      (
        bit-bit_or,
        bit-bit_or,
        bit-bit_or,
        bit-sign_from,
        bit-placed word 7 1 11 i (omega arith),
        bit-placed word 25 6 5 i (omega arith),
        bit-placed word 8 4 1 i (omega arith),
      )
      (ground arith)

j_bits :
    (word i : ℕ)
    → bit (get_imm_j word) i ≡ (if ltb i 32 then selected word (imm_source j_type i) else 0)
unfolding get_imm_j
j_bits word i =
    rw
      (
        bit-bit_or,
        bit-bit_or,
        bit-bit_or,
        bit-sign_from,
        bit-placed word 12 8 12 i (omega arith),
        bit-placed word 20 1 11 i (omega arith),
        bit-placed word 21 10 1 i (omega arith),
      )
      (ground arith)

get_imm_bits :
    (f : Format) (word i : ℕ)
    → bit (get_imm f word) i ≡ (if ltb i 32 then selected word (imm_source f i) else 0)
get_imm_bits i_type word i = i_bits word i
get_imm_bits s_type word i = s_bits word i
get_imm_bits b_type word i = b_bits word i
get_imm_bits u_type word i = u_bits word i
get_imm_bits j_type word i = j_bits word i

-- The opcodes whose instructions have an immediate, and the format of each.
pub data FormatOp : Type 0 where
  lui : FormatOp
  auipc : FormatOp
  jal : FormatOp
  jalr : FormatOp
  branch : FormatOp
  load : FormatOp
  store : FormatOp
  op_imm : FormatOp
  op_imm32 : FormatOp

abbrev pub code_of : FormatOp → ℕ
code_of FormatOp.lui = Info.op_lui
code_of FormatOp.auipc = Info.op_auipc
code_of FormatOp.jal = Info.op_jal
code_of FormatOp.jalr = Info.op_jalr
code_of FormatOp.branch = Info.op_branch
code_of FormatOp.load = Info.op_load
code_of FormatOp.store = Info.op_store
code_of FormatOp.op_imm = Info.op_imm
code_of FormatOp.op_imm32 = Info.op_imm32

abbrev pub format_of : FormatOp → Format
format_of FormatOp.lui = u_type
format_of FormatOp.auipc = u_type
format_of FormatOp.jal = j_type
format_of FormatOp.branch = b_type
format_of FormatOp.store = s_type
format_of _ = i_type

-- A shift by an immediate, whose field holds the amount.
abbrev pub is_shift : InstToken → Bool
is_shift InstToken.slli = true
is_shift InstToken.srli = true
is_shift InstToken.srai = true
is_shift InstToken.slliw = true
is_shift InstToken.srliw = true
is_shift InstToken.sraiw = true
is_shift _ = false

imm_or_shamt_plain :
    (token : InstToken) (word : ℕ)
    → is_shift token ≡ false
    → imm_or_shamt token word ≡ get_imm_i word
unfolding imm_or_shamt
imm_or_shamt_plain InstToken.slli word e = absurd cc
imm_or_shamt_plain InstToken.srli word e = absurd cc
imm_or_shamt_plain InstToken.srai word e = absurd cc
imm_or_shamt_plain InstToken.slliw word e = absurd cc
imm_or_shamt_plain InstToken.srliw word e = absurd cc
imm_or_shamt_plain InstToken.sraiw word e = absurd cc
imm_or_shamt_plain _ word e = refl

-- The immediate that is decoded by the opcode is the one of its format.
imm_of_format :
    (op : FormatOp) (token : InstToken) (word : ℕ)
    → is_shift token ≡ false
    → imm_of (code_of op) token word ≡ get_imm (format_of op) word
unfolding imm_of
imm_of_format FormatOp.lui token word e = refl
imm_of_format FormatOp.auipc token word e = refl
imm_of_format FormatOp.jal token word e = refl
imm_of_format FormatOp.branch token word e = refl
imm_of_format FormatOp.store token word e = refl
imm_of_format _ token word e = imm_or_shamt_plain token word e

-- Each bit of the decoded immediate of an opcode with a format, but for the immediate shifts, is the
-- bit of the instruction that the manual names for that format, with the sign above, and 0 where it
-- names none and from bit 32 on.
pub imm_of_bits :
    (op : FormatOp) (token : InstToken) (word i : ℕ)
    → is_shift token ≡ false
    → bit (imm_of (code_of op) token word) i
      ≡ (if ltb i 32 then selected word (imm_source (format_of op) i) else 0)
imm_of_bits op token word i e =
    ap (λ n. bit n i) (imm_of_format op token word e) ∙ get_imm_bits (format_of op) word i
