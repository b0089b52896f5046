-- ===== src/Cpu/Executor/Multiply.antt =====
-- MULH and MULHSU against the product on 128 bits.
use mathlib.Core.Bool.{xor}
use native.Mathlib.Nat.{mul-le-mul, mul-pos}
use rv64_emulator.Common.{ℕ, ◌+◌, ◌-◌, ◌*◌, ◌/◌, ◌%◌, ◌^◌, ◌<◌, ◌≤◌, ◌≡◌, ap, ◌∙◌, arith, inl, inr}
use rv64_emulator.Common.{
  Bool, true, false, Bool-cases, ◌&&◌, not, ltb, lt→ltb, ltb→lt, ◌==◌, ==_iff, of_bool,
  if◌then◌else◌,
}
use rv64_emulator.Words.{slt}
use rv64_emulator.Libs.Arithmetic.{mul_uint64_hi}
use rv64_emulator.Cpu.Executor.Alu.{mulh, mulhsu}

-- A signed word of 64 bits on 128 bits.
abbrev pub widen : ℕ → ℕ
widen a = if ltb a (2 ^ 63) then a else a + (2 ^ 128 - 2 ^ 64)

-- The upper half of a product on 128 bits.
abbrev pub upper : ℕ → ℕ
upper p = p % 2 ^ 128 / 2 ^ 64

-- A factor in two parts.
pub two_parts : (c d m b : ℕ) → c + d ≡ m → c * b + d * b ≡ m * b
two_parts c d m b e = sum ∙ ap (λ t. t * b) e
  where
    sum : c * b + d * b ≡ (c + d) * b
    sum = grind arith

pub two_parts_right : (a c d m : ℕ) → c + d ≡ m → a * c + a * d ≡ m * a
two_parts_right a c d m e = sum ∙ ap (λ t. t * a) e
  where
    sum : a * c + a * d ≡ (c + d) * a
    sum = grind arith

-- Absolute values of words.
product_bound : (a b : ℕ) → a ≤ 2 ^ 63 → b ≤ 2 ^ 63 → a * b < 2 ^ 127
product_bound a b h k = omega (arith, mul-le-mul {n₂ = 2 ^ 63} {m₂ = 2 ^ 63} h k)

slt_zero : (a : ℕ) → slt a 0 ≡ not (ltb a (2 ^ 63))
slt_zero a = ground arith

-- The two signs differ: `p` is the product of the absolute values, `y` that of the words, and `x`
-- that on 128 bits.
differ :
    (p x y b : ℕ)
    → p < 2 ^ 127
    → x + p ≡ 2 ^ 128 * b
    → y + p ≡ 2 ^ 64 * b
    → (2 ^ 64 - 1 - p / 2 ^ 64 + of_bool (y % 2 ^ 64 == 0)) % 2 ^ 64 ≡ x % 2 ^ 128 / 2 ^ 64
differ p x y b h e f = ground arith

-- The same where the product is not zero, so that the sum does not wrap.
no_wrap :
    (p x y b : ℕ)
    → p < 2 ^ 127
    → 0 < p
    → x + p ≡ 2 ^ 128 * b
    → y + p ≡ 2 ^ 64 * b
    → 2 ^ 64 - 1 - p / 2 ^ 64 + of_bool (y % 2 ^ 64 == 0) ≡ x % 2 ^ 128 / 2 ^ 64
no_wrap p x y b h z e f = ground arith

abbrev sign_bits : ℕ
sign_bits = 2 ^ 128 - 2 ^ 64

negative_positive :
    (a b : ℕ)
    → 2 ^ 63 ≤ a
    → a < 2 ^ 64
    → b < 2 ^ 63
    → (2 ^ 64 - 1 - (2 ^ 64 - a) * b / 2 ^ 64 + of_bool (a * b % 2 ^ 64 == 0)) % 2 ^ 64
      ≡ upper ((a + sign_bits) * b)
negative_positive a b l h k =
    differ ((2 ^ 64 - a) * b) ((a + sign_bits) * b) (a * b) b
      (product_bound (2 ^ 64 - a) b (omega arith) (omega arith))
      (two_parts (a + sign_bits) (2 ^ 64 - a) (2 ^ 128) b (omega arith))
      (two_parts a (2 ^ 64 - a) (2 ^ 64) b (omega arith))

positive_negative :
    (a b : ℕ)
    → a < 2 ^ 63
    → 2 ^ 63 ≤ b
    → b < 2 ^ 64
    → (2 ^ 64 - 1 - a * (2 ^ 64 - b) / 2 ^ 64 + of_bool (a * b % 2 ^ 64 == 0)) % 2 ^ 64
      ≡ upper (a * (b + sign_bits))
positive_negative a b h l k =
    differ (a * (2 ^ 64 - b)) (a * (b + sign_bits)) (a * b) a
      (product_bound a (2 ^ 64 - b) (omega arith) (omega arith))
      (two_parts_right a (b + sign_bits) (2 ^ 64 - b) (2 ^ 128) (omega arith))
      (two_parts_right a b (2 ^ 64 - b) (2 ^ 64) (omega arith))

both_negative :
    (a b : ℕ)
    → 2 ^ 63 ≤ a
    → a < 2 ^ 64
    → 2 ^ 63 ≤ b
    → b < 2 ^ 64
    → (2 ^ 64 - a) * (2 ^ 64 - b) / 2 ^ 64 ≡ upper ((a + sign_bits) * (b + sign_bits))
both_negative a b l h m k = omega (
  arith,
  product_bound (2 ^ 64 - a) (2 ^ 64 - b) (omega arith) (omega arith),
  two_parts (a + sign_bits) (2 ^ 64 - a) (2 ^ 128) (b + sign_bits) (omega arith),
  two_parts_right (2 ^ 64 - a) (b + sign_bits) (2 ^ 64 - b) (2 ^ 128) (omega arith),
)

-- MULH gives the upper half of the product of its signed operands, for every pair of words.
pub mulh_lem : (a b : ℕ) → a < 2 ^ 64 → b < 2 ^ 64 → mulh a b ≡ upper (widen a * widen b)
unfolding mulh mul_uint64_hi xor
mulh_lem a b h k = elim (Bool-cases (ltb a (2 ^ 63))) [
  | inl e ↦ elim (Bool-cases (ltb b (2 ^ 63))) [
    | inl f ↦
        rw (mulh, slt_zero a, slt_zero b, e, f)
          (omega (
            arith,
            product_bound a b (omega (arith, ltb→lt a (2 ^ 63) e))
                (omega (arith, ltb→lt b (2 ^ 63) f)),
          ))
    | inr f ↦
        rw (mulh, slt_zero a, slt_zero b, e, f)
          (positive_negative a b (ltb→lt a (2 ^ 63) e) (ground arith) k)
  ]
  | inr e ↦ elim (Bool-cases (ltb b (2 ^ 63))) [
    | inl f ↦
        rw (mulh, slt_zero a, slt_zero b, e, f)
          (negative_positive a b (ground arith) h (ltb→lt b (2 ^ 63) f))
    | inr f ↦
        rw (mulh, slt_zero a, slt_zero b, e, f)
          (both_negative a b (ground arith) h (ground arith) k)
  ]
]

-- The case in which MULHSU leaves out the carry: a negative rs1 and a product whose low word is zero.
abbrev pub is_short : ℕ → ℕ → Bool
is_short a b = slt a 0 && not (b == 0) && (a * b % 2 ^ 64 == 0)

wide_bound : (a b : ℕ) → a ≤ 2 ^ 63 → b < 2 ^ 64 → a * b < 2 ^ 127
wide_bound a b h k =
    let below : b ≤ 2 ^ 64 - 1 = omega arith in
    omega (arith, mul-le-mul {n₂ = 2 ^ 63} {m₂ = 2 ^ 64 - 1} h below)

not_zero : (a : ℕ) → 2 ^ 63 ≤ a → (a == 0) ≡ false
not_zero a h = ground arith

unsigned_case : (a b : ℕ) → a < 2 ^ 63 → b < 2 ^ 64 → mulhsu a b + 0 ≡ upper (a * b)
unfolding mulhsu mul_uint64_hi
unsigned_case a b h k =
    let small : ltb a (2 ^ 63) ≡ true = lt→ltb a (2 ^ 63) h in
    elim (Bool-cases (a == 0)) [
      | inl e ↦ rw (mulhsu, e) (omega (arith, ap (λ t. t * b) ((==_iff a 0).0 e)))
      | inr e ↦ elim (Bool-cases (b == 0)) [
        | inl f ↦ rw (mulhsu, e, f) (omega (arith, ap (λ t. a * t) ((==_iff b 0).0 f)))
        | inr f ↦
            rw (mulhsu, e, f, slt_zero a, small) (omega (arith, wide_bound a b (omega arith) k))
      ]
    ]

signed_case :
    (a b : ℕ)
    → 2 ^ 63 ≤ a
    → a < 2 ^ 64
    → b < 2 ^ 64
    → mulhsu a b + of_bool (not (b == 0) && (a * b % 2 ^ 64 == 0)) ≡ upper ((a + sign_bits) * b)
unfolding mulhsu mul_uint64_hi
signed_case a b l h k =
    let large : ltb a (2 ^ 63) ≡ false = ground arith in
    elim (Bool-cases (b == 0)) [
      | inl f ↦
          rw (mulhsu, not_zero a l, f)
            (omega (arith, ap (λ t. (a + sign_bits) * t) ((==_iff b 0).0 f)))
      | inr f ↦
          rw (mulhsu, not_zero a l, f, slt_zero a, large)
            (no_wrap ((2 ^ 64 - a) * b) ((a + sign_bits) * b) (a * b) b
              (wide_bound (2 ^ 64 - a) b (omega arith) k)
              (mul-pos {m = 2 ^ 64 - a} {n = b} (omega arith) (ground arith))
              (two_parts (a + sign_bits) (2 ^ 64 - a) (2 ^ 128) b (omega arith))
              (two_parts a (2 ^ 64 - a) (2 ^ 64) b (omega arith)))
    ]

-- MULHSU gives the upper half of the product of signed rs1 and unsigned rs2, but one less where rs1
-- is negative and the low word of a product of nonzero factors is zero.
pub mulhsu_lem :
    (a b : ℕ) → a < 2 ^ 64 → b < 2 ^ 64 → mulhsu a b + of_bool (is_short a b) ≡ upper (widen a * b)
mulhsu_lem a b h k = elim (Bool-cases (ltb a (2 ^ 63))) [
  | inl e ↦ rw (is_short, slt_zero a, e) (unsigned_case a b (ltb→lt a (2 ^ 63) e) k)
  | inr e ↦ rw (is_short, slt_zero a, e) (signed_case a b (ground arith) h k)
]
