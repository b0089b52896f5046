-- ===== src/Bits/Sign.antt =====
-- Sign extension by bits: the highest bit of a number, copied upwards.
use native.Mathlib.Nat.{mod-eq_of_lt, mod-lt, one-le-pow}
use rv64_emulator.Common.{ℕ, suc, ◌+◌, ◌-◌, ◌*◌, ◌/◌, ◌%◌, ◌^◌, ◌<◌, ◌≤◌, ltb, leb, if◌then◌else◌}
use rv64_emulator.Common.{◌≡◌, refl, ap, ◌∙◌, arith, inl, inr, Bool-cases, ltb→lt, lt→ltb, leb→le}
use rv64_emulator.Bits.Digit.{bit, bit-lt}
use rv64_emulator.Bits.Fields.{
  set_field, set_field-zero, bit-set_field, bit-mod, lt_of_bits, bit_of_lt,
}
use rv64_emulator.Bits.Mask.{bit-ones}
use rv64_emulator.Words.{sext}

-- A number of `w` bits below ones up to bit `n`.
sign_filled :
    (n x w i : ℕ)
    → x < 2 ^ w
    → (2 ^ n - 1) / 2 ^ w * 2 ^ w ≡ 2 ^ n - 2 ^ w
    → bit (x + (2 ^ n - 2 ^ w)) i ≡ (if ltb i w then bit x i else if ltb i n then 1 else 0)
sign_filled n x w i h mask =
    ap (λ n. bit n i) as_set ∙ bit-set_field (2 ^ n - 1) 0 w x i ∙ ground (arith, bit-ones n i)
  where
    as_set : x + (2 ^ n - 2 ^ w) ≡ set_field (2 ^ n - 1) 0 w x
    as_set = rw (set_field-zero, mask, mod-eq_of_lt h) refl

-- The highest bit of a number of `suc p` bits.
top_bit : (x p : ℕ) → x < 2 ^ suc p → bit x p ≡ (if ltb x (2 ^ p) then 0 else 1)
top_bit x p h = elim (Bool-cases (ltb x (2 ^ p))) [
  | inl e ↦ rw e (bit_of_lt p x p (ltb→lt x (2 ^ p) e) (omega arith))
  | inr e ↦ ground (arith, bit-lt x p, clear, lt→ltb x (2 ^ p))
]
  where
    clear : bit x p ≡ 0 → x < 2 ^ p
    clear z = lt_of_bits p x λ i k. elim (Bool-cases (leb (suc p) i)) [
      | inl a ↦ bit_of_lt (suc p) x i h (leb→le (suc p) i a)
      | inr a ↦ let same : i ≡ p = ground arith in ap (λ n. bit x n) same ∙ z
    ]

-- A number of `suc p` bits, extended to `n` bits by its highest.
pub sign_extended :
    (n x p i : ℕ)
    → p < n
    → x < 2 ^ suc p
    → (2 ^ n - 1) / 2 ^ suc p * 2 ^ suc p ≡ 2 ^ n - 2 ^ suc p
    → bit (if ltb x (2 ^ p) then x else x + (2 ^ n - 2 ^ suc p)) i
      ≡ (if ltb i n then (if leb i p then bit x i else bit x p) else 0)
sign_extended n x p i small fits mask = elim (Bool-cases (ltb x (2 ^ p))) [
  | inl e ↦ rw e (below (top_bit x p fits ∙ ap (λ b. if b then 0 else 1) e))
  | inr e ↦ rw e (above (top_bit x p fits ∙ ap (λ b. if b then 0 else 1) e))
]
  where
    over : suc p ≤ i → bit x i ≡ 0
    over h = bit_of_lt (suc p) x i fits h

    below : bit x p ≡ 0 → bit x i ≡ (if ltb i n then (if leb i p then bit x i else bit x p) else 0)
    below z = ground (arith, over)

    above :
        bit x p ≡ 1
        → bit (x + (2 ^ n - 2 ^ suc p)) i
          ≡ (if ltb i n then (if leb i p then bit x i else bit x p) else 0)
    above o = sign_filled n x (suc p) i fits mask ∙ ground arith

-- Each bit of `(int64_t)(intN_t)v`, for an N of `suc p`.
pub bit-sext :
    (v p i : ℕ)
    → p < 64
    → (2 ^ 64 - 1) / 2 ^ suc p * 2 ^ suc p ≡ 2 ^ 64 - 2 ^ suc p
    → bit (sext (suc p) v) i ≡ (if ltb i 64 then (if leb i p then bit v i else bit v p) else 0)
bit-sext v p i small mask = rw before (
    sign_extended 64 (v % 2 ^ suc p) p i small (mod-lt v (one-le-pow (suc p) 2 (omega arith))) mask
    ∙ rw (bit-mod v (suc p) i, bit-mod v (suc p) p) (ground arith))
  where
    before : suc p - 1 ≡ p
    before = omega arith
