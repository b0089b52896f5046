-- ===== src/Words.antt =====
-- Integers of C++ as bit patterns: sign extension, and the signed operations by the integers that
-- the patterns stand for. Signed sums and products wrap, as the targets of the build make them.
use rv64_emulator.Common.{ℕ, zero, suc, ◌+◌, ◌-◌, ◌*◌, ◌/◌, ◌%◌, ◌^◌, Bool, true, false, ltb}
use rv64_emulator.Common.{if◌then◌else◌}

-- `negsuc n` is -(n + 1).
pub data ℤ : Type 0 where
  pos : ℕ → ℤ
  negsuc : ℕ → ℤ

abbrev pub neg : ℕ → ℤ
neg zero = pos 0
neg (suc n) = negsuc n

abbrev pub nat_abs : ℤ → ℕ
nat_abs (pos n) = n
nat_abs (negsuc n) = suc n

abbrev pub is_negative : ℤ → Bool
is_negative (pos n) = false
is_negative (negsuc n) = true

abbrev pub ltb_ℤ : ℤ → ℤ → Bool
ltb_ℤ (pos a) (pos b) = ltb a b
ltb_ℤ (pos a) (negsuc b) = false
ltb_ℤ (negsuc a) (pos b) = true
ltb_ℤ (negsuc a) (negsuc b) = ltb b a

-- The integer that a pattern of `w` bits stands for, and the pattern of an integer.
abbrev pub to_signed : ℕ → ℕ → ℤ
to_signed w v = if ltb v (2 ^ (w - 1)) then pos v else negsuc (2 ^ w - 1 - v)

abbrev pub of_signed : ℕ → ℤ → ℕ
of_signed w (pos n) = n % 2 ^ w
of_signed w (negsuc n) = 2 ^ w - 1 - n % 2 ^ w

-- `/` and `%` of C++, which round towards zero.
abbrev pub tdiv : ℤ → ℤ → ℤ
tdiv (pos a) (pos b) = pos (a / b)
tdiv (pos a) (negsuc b) = neg (a / suc b)
tdiv (negsuc a) (pos b) = neg (suc a / b)
tdiv (negsuc a) (negsuc b) = pos (suc a / suc b)

abbrev pub tmod : ℤ → ℤ → ℤ
tmod (pos a) b = pos (a % nat_abs b)
tmod (negsuc a) b = neg (suc a % nat_abs b)

-- `(int64_t)(intN_t)v`, as a 64-bit pattern.
abbrev pub sext : ℕ → ℕ → ℕ
sext w v = if ltb (v % 2 ^ w) (2 ^ (w - 1)) then v % 2 ^ w else v % 2 ^ w + (2 ^ 64 - 2 ^ w)

-- Sum, difference, product and complement on `w` bits.
abbrev pub add_wrap : ℕ → ℕ → ℕ → ℕ
add_wrap w a b = (a + b) % 2 ^ w

abbrev pub sub_wrap : ℕ → ℕ → ℕ → ℕ
sub_wrap w a b = (a + 2 ^ w - b) % 2 ^ w

abbrev pub mul_wrap : ℕ → ℕ → ℕ → ℕ
mul_wrap w a b = a * b % 2 ^ w

-- `<` on int64_t
abbrev pub slt : ℕ → ℕ → Bool
slt a b = ltb_ℤ (to_signed 64 a) (to_signed 64 b)

-- `>>` on a signed integer of `w` bits: the sign is shifted in.
abbrev pub sra : ℕ → ℕ → ℕ → ℕ
sra w v k = if ltb v (2 ^ (w - 1)) then v / 2 ^ k else 2 ^ w - 1 - (2 ^ w - 1 - v) / 2 ^ k

-- `(uint64_t)std::abs(v)`; the most negative number is its own absolute value.
abbrev pub abs64 : ℕ → ℕ
abs64 v = if ltb v (2 ^ 63) then v else 2 ^ 64 - v
