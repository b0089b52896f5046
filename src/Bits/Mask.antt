-- ===== src/Bits/Mask.antt =====
-- `&` with a mask of low ones is a remainder, and with one bit a test of that bit.
use native.Mathlib.Nat.{pow-suc, one-le-pow}
use rv64_emulator.Common.{ℕ, zero, suc, ◌-◌, ◌*◌, ◌/◌, ◌%◌, ◌^◌, bit_and}
use rv64_emulator.Common.{◌≡◌, refl, ap, ◌∙◌, arith, ltb, if◌then◌else◌}
use rv64_emulator.Common.{◌==◌}
use rv64_emulator.Bits.Digit.{bit, bit-lt, bit-zero, bits_ext, bit-bit_and}
use rv64_emulator.Bits.Step.{bit_and_step}
use rv64_emulator.Bits.Fields.{bit-mod}

pub bit-ones : (k i : ℕ) → bit (2 ^ k - 1) i ≡ (if ltb i k then 1 else 0)
bit-ones zero i = bit-zero i ∙ ground arith
bit-ones (suc k) zero = ground (arith, pow-suc 2 k, one-le-pow k 2)
bit-ones (suc k) (suc i) = ap (λ n. bit n i) (half) ∙ (bit-ones k i ∙ ground arith)
  where
    half : (2 ^ suc k - 1) / 2 ≡ 2 ^ k - 1
    half = omega (arith, pow-suc 2 k)

-- A mask of `k` low ones.
pub bit_and-ones : (k a : ℕ) → bit_and a (2 ^ k - 1) ≡ a % 2 ^ k
bit_and-ones k a =
    bits_ext (bit_and a (2 ^ k - 1)) (a % 2 ^ k)
      λ i. ground (arith, bit-bit_and a (2 ^ k - 1) i, bit-ones k i, bit-mod a k i, bit-lt a i)

pub bit-power : (k i : ℕ) → bit (2 ^ k) i ≡ (if i == k then 1 else 0)
bit-power zero zero = refl
bit-power zero (suc i) = bit-zero i ∙ ground arith
bit-power (suc k) zero = ground (arith, pow-suc 2 k)
bit-power (suc k) (suc i) = ap (λ n. bit n i) (half) ∙ (bit-power k i ∙ ground arith)
  where
    half : 2 ^ suc k / 2 ≡ 2 ^ k
    half = omega (arith, pow-suc 2 k)

-- A mask of one bit keeps that bit in its place.
pub bit_and-power : (k a : ℕ) → bit_and a (2 ^ k) ≡ bit a k * 2 ^ k
bit_and-power zero a = bit_and-ones 1 a ∙ omega arith
bit_and-power (suc k) a = omega (
  arith,
  bit_and_step a (2 ^ suc k),
  bit_and-power k (a / 2),
  pow-suc 2 k,
  half,
  ap (λ (t : ℕ). bit_and (a / 2) t) (half),
  ap (λ (t : ℕ). bit (a / 2) k * t) (pow-suc 2 k),
)
  where
    half : 2 ^ suc k / 2 ≡ 2 ^ k
    half = omega (arith, pow-suc 2 k)

pub bit_and_comm : (a b : ℕ) → bit_and a b ≡ bit_and b a
bit_and_comm a b =
    bits_ext (bit_and a b) (bit_and b a) λ i. omega (arith, bit-bit_and a b i, bit-bit_and b a i)
