-- ===== src/Cpu/Decode/Sizes.antt =====
-- What decoding gives where it gives an instruction: an access of at most eight bytes.
use rv64_emulator.Common.{
  ℕ, zero, suc, ◌+◌, ◌-◌, ◌/◌, ◌%◌, ◌^◌, ◌≤◌, ◌≡◌, ◌≢◌, refl, sym, ap, ◌∙◌, arith, inl, inr,
}
use native.Mathlib.Nat.{mod-mod}
use rv64_emulator.Common.{
  Bool, true, false, Bool-cases, ◌&&◌, ◌||◌, not, leb, if◌then◌else◌, bit_and, ◌==◌, ==_iff,
}
use rv64_emulator.Common.{List, [], ◌∷◌, Option, some}
use rv64_emulator.Bits.Digit.{bits_ext, bit-bit_and}
use rv64_emulator.Bits.Fields.{field, bit-mod, bit-shift}
use rv64_emulator.Bits.Mask.{bit_and-ones}
use rv64_emulator.Cpu.Decode.Table.{InstToken, InstDesc, inst_table, first_match, get_token}
use rv64_emulator.Cpu.Decode.Info.{mem_size_of, access_mem_bytes, op_amo}

field-bit_and : (a m lo w : ℕ) → field (bit_and a m) lo w ≡ bit_and (field a lo w) (field m lo w)
field-bit_and a m lo w = bits_ext _ _ λ i. ground (
  arith,
  bit-mod (bit_and a m / 2 ^ lo) w i,
  bit-shift (bit_and a m) lo i,
  bit-bit_and a m (lo + i),
  bit-bit_and (field a lo w) (field m lo w) i,
  bit-mod (a / 2 ^ lo) w i,
  bit-shift a lo i,
  bit-mod (m / 2 ^ lo) w i,
  bit-shift m lo i,
)

-- A field that the mask covers is that of the signature.
field_of_match :
    (word mask lo w : ℕ)
    → field mask lo w ≡ 2 ^ w - 1
    → field (bit_and word mask) lo w ≡ field word lo w
field_of_match word mask lo w e =
    field-bit_and word mask lo w
    ∙ (ap (λ t. bit_and (field word lo w) t) e
        ∙ (bit_and-ones w (field word lo w) ∙ mod_self (word / 2 ^ lo)))
  where
    mod_self : (x : ℕ) → x % 2 ^ w % 2 ^ w ≡ x % 2 ^ w
    mod_self x = mod-mod x (2 ^ w)

-- A row fixes the opcode, and it is not that of the A extension, or it fixes a width up to eight bytes.
abbrev is_sized : InstDesc → Bool
is_sized r =
    ((field r.mask 0 7 == 127) && not (field r.signature 0 7 == op_amo))
    || ((field r.mask 12 3 == 7) && leb (field r.signature 12 3) 3)

abbrev all_sized : List InstDesc → Bool
all_sized [] = true
all_sized (r ∷ rs) = is_sized r && all_sized rs

low_of_match :
    (word : ℕ) (r : InstDesc)
    → bit_and word r.mask ≡ r.signature
    → field r.mask 0 7 ≡ 127
    → field word 0 7 ≡ field r.signature 0 7
low_of_match word r m e = sym (field_of_match word r.mask 0 7 e) ∙ ap (λ s. field s 0 7) m

width_of_match :
    (word : ℕ) (r : InstDesc)
    → bit_and word r.mask ≡ r.signature
    → field r.mask 12 3 ≡ 7
    → field word 12 3 ≡ field r.signature 12 3
width_of_match word r m e = sym (field_of_match word r.mask 12 3 e) ∙ ap (λ s. field s 12 3) m

sized_row :
    (word : ℕ) (r : InstDesc)
    → is_sized r ≡ true
    → bit_and word r.mask ≡ r.signature
    → field word 0 7 ≡ op_amo
    → field word 12 3 ≤ 3
sized_row word r h m amo =
    split (field r.mask 0 7) (field r.signature 0 7) (field r.mask 12 3) (field r.signature 12 3) h
      (low_of_match word r m) (width_of_match word r m)
  where
    split :
        (a b c d : ℕ)
        → (((a == 127) && not (b == op_amo)) || ((c == 7) && leb d 3)) ≡ true
        → (a ≡ 127 → field word 0 7 ≡ b)
        → (c ≡ 7 → field word 12 3 ≡ d)
        → field word 12 3 ≤ 3
    split a b c d h low width = ground arith

first_match-sized :
    (rs : List InstDesc) (word : ℕ)
    → all_sized rs ≡ true
    → first_match rs word ≢ InstToken.unknown
    → field word 0 7 ≡ op_amo
    → field word 12 3 ≤ 3
unfolding first_match
first_match-sized [] word h known amo = absurd (known refl)
first_match-sized (r ∷ rs) word h known amo =
    elim (Bool-cases (bit_and word r.mask == r.signature)) [
      | inl e ↦ sized_row word r (ground arith) ((==_iff _ _).0 e) amo
      | inr e ↦ first_match-sized rs word (ground arith) (λ f. known (rw e f)) amo
    ]

table_sized : all_sized inst_table ≡ true
unfolding inst_table
table_sized = refl

access_mem_bytes-le : (token : InstToken) {n : ℕ} → access_mem_bytes token ≡ some n → n ≤ 8
unfolding access_mem_bytes
access_mem_bytes-le InstToken.lui e = ground arith
access_mem_bytes-le InstToken.auipc e = ground arith
access_mem_bytes-le InstToken.jal e = ground arith
access_mem_bytes-le InstToken.jalr e = ground arith
access_mem_bytes-le InstToken.beq e = ground arith
access_mem_bytes-le InstToken.bne e = ground arith
access_mem_bytes-le InstToken.blt e = ground arith
access_mem_bytes-le InstToken.bge e = ground arith
access_mem_bytes-le InstToken.bltu e = ground arith
access_mem_bytes-le InstToken.bgeu e = ground arith
access_mem_bytes-le InstToken.lb e = ground arith
access_mem_bytes-le InstToken.lh e = ground arith
access_mem_bytes-le InstToken.lw e = ground arith
access_mem_bytes-le InstToken.lbu e = ground arith
access_mem_bytes-le InstToken.lhu e = ground arith
access_mem_bytes-le InstToken.sb e = ground arith
access_mem_bytes-le InstToken.sh e = ground arith
access_mem_bytes-le InstToken.sw e = ground arith
access_mem_bytes-le InstToken.lwu e = ground arith
access_mem_bytes-le InstToken.ld e = ground arith
access_mem_bytes-le InstToken.sd e = ground arith
access_mem_bytes-le _ e = cc

power_le : (w : ℕ) → w ≤ 3 → 2 ^ w ≤ 8
power_le zero h = omega arith
power_le (suc zero) h = omega arith
power_le (suc (suc zero)) h = omega arith
power_le (suc (suc (suc zero))) h = omega arith
power_le (suc (suc (suc (suc w)))) h = absurd (omega arith)

some_injective : {a b : ℕ} → some a ≡ some b → a ≡ b
some_injective e = cc

one_of_three :
    (amo memory : Bool) (w : ℕ) (o : Option ℕ) {n : ℕ}
    → (if amo then some (2 ^ w) else if memory then o else some 0) ≡ some n
    → (amo ≡ true → w ≤ 3)
    → (o ≡ some n → n ≤ 8)
    → n ≤ 8
one_of_three true memory w o e wide small = rw (← some_injective e) (power_le w (wide refl))
one_of_three false true w o e wide small = small e
one_of_three false false w o e wide small = rw (← some_injective e) (omega arith)

-- A word that some row matches makes an access of at most eight bytes.
pub mem_size_of-le :
    (word : ℕ) {n : ℕ}
    → get_token word ≢ InstToken.unknown
    → mem_size_of (field word 0 7) (get_token word) word ≡ some n
    → n ≤ 8
unfolding mem_size_of get_token
mem_size_of-le word known e =
    one_of_three (field word 0 7 == op_amo) _ (field word 12 3) (access_mem_bytes (get_token word))
      e narrow (access_mem_bytes-le (get_token word))
  where
    narrow : (field word 0 7 == op_amo) ≡ true → field word 12 3 ≤ 3
    narrow f =
        first_match-sized inst_table word table_sized known ((==_iff (field word 0 7) op_amo).0 f)
