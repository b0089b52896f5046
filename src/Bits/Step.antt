-- ===== src/Bits/Step.antt =====
-- The lowest binary digit of each native bit operation, from the digit recursion behind it.
use Prim.Native.Nat.{digits, bitwise, bit_and-bitwise, bit_or-bitwise, bit_xor-bitwise, differ}
use native.Mathlib.Nat.{le_refl}
use rv64_emulator.Common.{ℕ, zero, suc, ◌+◌, ◌*◌, ◌/◌, ◌%◌, ◌≤◌, ◌<◌, min, max}
use rv64_emulator.Common.{bit_and, bit_or, bit_xor, ◌≡◌, refl, ap, arith}

module _ (past : ℕ → ℕ) (f : ℕ → ℕ → ℕ) where
  -- A count of digits that covers the first number can be replaced by any other that does.
  fuel_independent : (a b m n : ℕ) → a ≤ m → a ≤ n → digits past f m a b ≡ digits past f n a b
  fuel_independent a b zero zero h k = refl
  fuel_independent zero b zero (suc n) h k = refl
  fuel_independent (suc a) b zero (suc n) h k = absurd (omega arith)
  fuel_independent zero b (suc m) n h k = past_end n
    where
      past_end : (n : ℕ) → past b ≡ digits past f n zero b
      past_end zero = refl
      past_end (suc n) = refl
  fuel_independent (suc a) b (suc m) zero h k = absurd (omega arith)
  fuel_independent (suc a) b (suc m) (suc n) h k =
      ap (λ t. t * 2 + f (suc a % 2) (b % 2))
        (fuel_independent (suc a / 2) (b / 2) m n (omega arith) (omega arith))

  -- One digit of the operation.
  pub bitwise_step :
      (a b : ℕ)
      → past b ≡ past (b / 2) * 2 + f 0 (b % 2)
      → bitwise past f a b ≡ bitwise past f (a / 2) (b / 2) * 2 + f (a % 2) (b % 2)
  bitwise_step zero b e = e
  bitwise_step (suc a) b e =
      ap (λ t. t * 2 + f (suc a % 2) (b % 2))
        (fuel_independent (suc a / 2) (b / 2) a (suc a / 2) (omega arith) (le_refl _))

pub bit_and_step : (a b : ℕ) → bit_and a b ≡ bit_and (a / 2) (b / 2) * 2 + min (a % 2) (b % 2)
bit_and_step a b = omega (
  arith,
  bit_and-bitwise a b,
  bit_and-bitwise (a / 2) (b / 2),
  bitwise_step (λ (b : ℕ). 0) min a b (omega arith),
)

pub bit_or_step : (a b : ℕ) → bit_or a b ≡ bit_or (a / 2) (b / 2) * 2 + max (a % 2) (b % 2)
bit_or_step a b = omega (
  arith,
  bit_or-bitwise a b,
  bit_or-bitwise (a / 2) (b / 2),
  bitwise_step (λ (b : ℕ). b) max a b (omega arith),
)

differ_digits : (a b : ℕ) → a < 2 → b < 2 → differ a b ≡ (a + b) % 2
differ_digits zero b h k = omega arith
differ_digits (suc zero) zero h k = refl
differ_digits (suc zero) (suc zero) h k = refl
differ_digits (suc zero) (suc (suc b)) h k = absurd (omega arith)
differ_digits (suc (suc a)) b h k = absurd (omega arith)

pub bit_xor_step : (a b : ℕ) → bit_xor a b ≡ bit_xor (a / 2) (b / 2) * 2 + (a % 2 + b % 2) % 2
bit_xor_step a b = omega (
  arith,
  bit_xor-bitwise a b,
  bit_xor-bitwise (a / 2) (b / 2),
  bitwise_step (λ (b : ℕ). b) differ a b (omega arith),
  differ_digits (a % 2) (b % 2) (omega arith) (omega arith),
)
