-- ===== src/Bits/Digit.antt =====
-- `&`, `|`, `^` and `~` of C++ on words: the value of each bit, and equality of words by bits.

use native.Mathlib.Nat.{pow-suc}
use rv64_emulator.Bits.Step.{bit_and_step, bit_or_step, bit_xor_step}
use rv64_emulator.Common.{ℕ, zero, suc, ◌+◌, ◌-◌, ◌/◌, ◌%◌, ◌^◌, ◌≤◌, ◌<◌, min, max}
use rv64_emulator.Common.{bit_and, bit_or, bit_xor, ◌≡◌, refl, ap, ◌∙◌, arith, Bool, true, ◌&&◌}

-- Bit `i` of a word, 0 or 1.
abbrev pub bit : ℕ → ℕ → ℕ
bit a zero = a % 2
bit a (suc i) = bit (a / 2) i

pub bit-lt : (a i : ℕ) → bit a i < 2
bit-lt a zero = omega arith
bit-lt a (suc i) = bit-lt (a / 2) i

pub bit-bit_and : (a b i : ℕ) → bit (bit_and a b) i ≡ min (bit a i) (bit b i)
bit-bit_and a b zero = omega (arith, bit_and_step a b)
bit-bit_and a b (suc i) = rw (half) (bit-bit_and (a / 2) (b / 2) i)
  where
    half : bit_and a b / 2 ≡ bit_and (a / 2) (b / 2)
    half = omega (arith, bit_and_step a b)

pub bit-bit_or : (a b i : ℕ) → bit (bit_or a b) i ≡ max (bit a i) (bit b i)
bit-bit_or a b zero = omega (arith, bit_or_step a b)
bit-bit_or a b (suc i) = rw (half) (bit-bit_or (a / 2) (b / 2) i)
  where
    half : bit_or a b / 2 ≡ bit_or (a / 2) (b / 2)
    half = omega (arith, bit_or_step a b)

pub bit-bit_xor : (a b i : ℕ) → bit (bit_xor a b) i ≡ (bit a i + bit b i) % 2
bit-bit_xor a b zero = omega (arith, bit_xor_step a b)
bit-bit_xor a b (suc i) = rw (half) (bit-bit_xor (a / 2) (b / 2) i)
  where
    half : bit_xor a b / 2 ≡ bit_xor (a / 2) (b / 2)
    half = omega (arith, bit_xor_step a b)

pub bit-zero : (i : ℕ) → bit 0 i ≡ 0
bit-zero zero = refl
bit-zero (suc i) = bit-zero i

-- Two numbers with the same bits are equal.
bits_ext_fuel : (n a b : ℕ) → a ≤ n → b ≤ n → ((i : ℕ) → bit a i ≡ bit b i) → a ≡ b
bits_ext_fuel zero a b p q same = omega arith
bits_ext_fuel (suc n) a b p q same =
    omega (
      arith,
      same 0,
      bits_ext_fuel n (a / 2) (b / 2) (omega arith) (omega arith) (λ i. same (suc i)),
    )

pub bits_ext : (a b : ℕ) → ((i : ℕ) → bit a i ≡ bit b i) → a ≡ b
bits_ext a b same = bits_ext_fuel (a + b) a b (omega arith) (omega arith) same

-- `~a` on a word of `w` bits.
abbrev pub bit_not : ℕ → ℕ → ℕ
bit_not w a = 2 ^ w - 1 - a

pub bit-bit_not : (w a i : ℕ) → a < 2 ^ w → i < w → bit (bit_not w a) i ≡ 1 - bit a i
bit-bit_not zero a i h k = absurd (omega arith)
bit-bit_not (suc w) a zero h k = omega (arith, pow-suc 2 w)
bit-bit_not (suc w) a (suc i) h k =
    ap (λ n. bit n i) (half) ∙ bit-bit_not w (a / 2) i (omega (arith, pow-suc 2 w)) (omega arith)
  where
    half : bit_not (suc w) a / 2 ≡ bit_not w (a / 2)
    half = omega (arith, pow-suc 2 w)

-- A test on each of the numbers below a bound, and what it proves.
unfoldable pub all_below : ℕ → (ℕ → Bool) → Bool
all_below zero p = true
all_below (suc n) p = p n && all_below n p

pub all_below_sound : (n : ℕ) (p : ℕ → Bool) (x : ℕ) → all_below n p ≡ true → x < n → p x ≡ true
unfolding all_below
all_below_sound zero p x h k = absurd (omega arith)
all_below_sound (suc n) p x h k = ground (arith, all_below_sound n p x)
