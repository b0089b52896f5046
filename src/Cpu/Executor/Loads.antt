-- ===== src/Cpu/Executor/Loads.antt =====
-- What each load gives, bit by bit.
use rv64_emulator.Common.{
  ℕ, suc, ◌/◌, ◌-◌, ◌*◌, ◌%◌, ◌^◌, ◌<◌, ◌≤◌, ltb, Bool, true, false, ◌&&◌, if◌then◌else◌,
}
use rv64_emulator.Common.{◌≡◌, refl, ◌∙◌, arith}
use rv64_emulator.Bits.Digit.{bit}
use rv64_emulator.Bits.Fields.{bit-mod}
use rv64_emulator.Bits.Sign.{bit-sext}
use rv64_emulator.Words.{sext}
use rv64_emulator.Cpu.Decode.Table.{InstToken}
use rv64_emulator.Cpu.Executor.Value.{value}
use rv64_emulator.Cpu.Executor.Memory.{load_value}

-- The loads of the architecture: their tokens, how many bytes each reads, and whether it extends them
-- by their sign.
pub data LoadKind : Type 0 where
  lb lh lw ld lbu lhu lwu : LoadKind

abbrev pub token_of : LoadKind → InstToken
token_of LoadKind.lb = InstToken.lb
token_of LoadKind.lh = InstToken.lh
token_of LoadKind.lw = InstToken.lw
token_of LoadKind.ld = InstToken.ld
token_of LoadKind.lbu = InstToken.lbu
token_of LoadKind.lhu = InstToken.lhu
token_of LoadKind.lwu = InstToken.lwu

abbrev pub width_of : LoadKind → ℕ
width_of LoadKind.lb = 1
width_of LoadKind.lh = 2
width_of LoadKind.lw = 4
width_of LoadKind.ld = 8
width_of LoadKind.lbu = 1
width_of LoadKind.lhu = 2
width_of LoadKind.lwu = 4

abbrev pub is_signed : LoadKind → Bool
is_signed LoadKind.lb = true
is_signed LoadKind.lh = true
is_signed LoadKind.lw = true
is_signed _ = false

-- Bit `i` of `v` cut to `bytes` bytes and extended to 64 bits, by its sign or by zeros.
abbrev pub extended_bit : Bool → ℕ → ℕ → ℕ → ℕ
extended_bit signed bytes v i =
    if ltb i (8 * bytes) then bit v i else if signed && ltb i 64 then bit v (8 * bytes - 1) else 0

bit-sext_cut :
    (v p i : ℕ)
    → p < 64
    → (2 ^ 64 - 1) / 2 ^ suc p * 2 ^ suc p ≡ 2 ^ 64 - 2 ^ suc p
    → bit (sext (suc p) (v % 2 ^ suc p)) i
      ≡ (if ltb i (suc p) then bit v i else if ltb i 64 then bit v p else 0)
bit-sext_cut v p i small mask =
    bit-sext (v % 2 ^ suc p) p i small mask
    ∙ rw (bit-mod v (suc p) i, bit-mod v (suc p) p) (ground arith)

-- Each load gives the low bytes that it read, extended as its name says.
pub load_value_bits :
    (l : LoadKind) (v : ℕ)
    → (x : ℕ) × (load_value (token_of l) (v % 256 ^ width_of l) ≡ value x)
      × ((i : ℕ) → bit x i ≡ extended_bit (is_signed l) (width_of l) v i)
unfolding load_value
load_value_bits LoadKind.lb v = (_, refl, λ i. bit-sext_cut v 7 i (omega arith) refl)
load_value_bits LoadKind.lh v = (_, refl, λ i. bit-sext_cut v 15 i (omega arith) refl)
load_value_bits LoadKind.lw v = (_, refl, λ i. bit-sext_cut v 31 i (omega arith) refl)
load_value_bits LoadKind.ld v = (_, refl, λ i. bit-mod v 64 i)
load_value_bits LoadKind.lbu v = (_, refl, λ i. bit-mod v 8 i)
load_value_bits LoadKind.lhu v = (_, refl, λ i. bit-mod v 16 i)
load_value_bits LoadKind.lwu v = (_, refl, λ i. bit-mod v 32 i)

pub width_of-le : (l : LoadKind) → width_of l ≤ 8
width_of-le LoadKind.lb = omega arith
width_of-le LoadKind.lh = omega arith
width_of-le LoadKind.lw = omega arith
width_of-le LoadKind.ld = omega arith
width_of-le LoadKind.lbu = omega arith
width_of-le LoadKind.lhu = omega arith
width_of-le LoadKind.lwu = omega arith
