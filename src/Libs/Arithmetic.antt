-- ===== src/Libs/Arithmetic.antt =====
-- MulUint64Hi and PortableMulUnsignedHi of include/libs/arithmetic.h and src/libs/arithmetic.cc.
use native.Mathlib.Nat.{div-add-mod', mul-le-mul}
use rv64_emulator.Common.{ℕ, ◌+◌, ◌*◌, ◌/◌, ◌%◌, ◌^◌, ◌<◌, ◌≤◌, ◌-◌, ◌≡◌, arith, ap, ap₂, sym, ◌∙◌}

-- PortableMulUnsignedHi on uint64_t: the halves have 32 bits, and every sum and product wraps at 64.
unfoldable pub portable_mul_unsigned_hi : ℕ → ℕ → ℕ
portable_mul_unsigned_hi a b =
    let a_lo = a % 2 ^ 32 in
    let a_hi = a / 2 ^ 32 in
    let b_lo = b % 2 ^ 32 in
    let b_hi = b / 2 ^ 32 in
    let a_x_b_hi = a_hi * b_hi % 2 ^ 64 in
    let a_x_b_mid = a_hi * b_lo % 2 ^ 64 in
    let b_x_a_mid = b_hi * a_lo % 2 ^ 64 in
    let a_x_b_lo = a_lo * b_lo % 2 ^ 64 in
    let carry_bit =
      (a_x_b_mid % 2 ^ 32 + b_x_a_mid % 2 ^ 32 + a_x_b_lo / 2 ^ 32) % 2 ^ 64 / 2 ^ 32 in
    (a_x_b_hi + a_x_b_mid / 2 ^ 32 + b_x_a_mid / 2 ^ 32 + carry_bit) % 2 ^ 64

-- MulUint64Hi on the targets with a multiply instruction: `mulq` and `umulh` give the upper half of
-- the product of two 64-bit words.
unfoldable pub mul_uint64_hi : ℕ → ℕ → ℕ
mul_uint64_hi a b = a * b / 2 ^ 64

-- The largest product of two halves.
abbrev max_product : ℕ
max_product = 2 ^ 64 - 2 ^ 33 + 1

half_product_le : (x y : ℕ) → x < 2 ^ 32 → y < 2 ^ 32 → x * y ≤ max_product
half_product_le x y h k = mul-le-mul {n₂ = 2 ^ 32 - 1} {m₂ = 2 ^ 32 - 1} (omega arith) (omega arith)

-- The product by halves.
expand :
    (a_hi a_lo b_hi b_lo : ℕ)
    → (a_hi * 2 ^ 32 + a_lo) * (b_hi * 2 ^ 32 + b_lo)
      ≡ a_hi * b_hi * 2 ^ 64 + (a_hi * b_lo + b_hi * a_lo) * 2 ^ 32 + a_lo * b_lo
expand a_hi a_lo b_hi b_lo = grind arith

-- The carries, for the four products.
carry :
    (x y z w : ℕ)
    → x ≤ max_product
    → y ≤ max_product
    → z ≤ max_product
    → w ≤ max_product
    → (x % 2 ^ 64
          + y % 2 ^ 64 / 2 ^ 32
          + z % 2 ^ 64 / 2 ^ 32
          + (y % 2 ^ 64 % 2 ^ 32 + z % 2 ^ 64 % 2 ^ 32 + w % 2 ^ 64 / 2 ^ 32) % 2 ^ 64 / 2 ^ 32)
        % 2 ^ 64
      ≡ (x * 2 ^ 64 + (y + z) * 2 ^ 32 + w) / 2 ^ 64
carry x y z w hx hy hz hw = omega arith

-- The portable version computes what the instruction does.
pub portable_mul_unsigned_hi_lem :
    (a b : ℕ) → a < 2 ^ 64 → b < 2 ^ 64 → portable_mul_unsigned_hi a b ≡ mul_uint64_hi a b
unfolding portable_mul_unsigned_hi mul_uint64_hi
portable_mul_unsigned_hi_lem a b h k =
    carry (a_hi * b_hi) (a_hi * b_lo) (b_hi * a_lo) (a_lo * b_lo)
      (half_product_le a_hi b_hi (omega arith) (omega arith))
      (half_product_le a_hi b_lo (omega arith) (omega arith))
      (half_product_le b_hi a_lo (omega arith) (omega arith))
      (half_product_le a_lo b_lo (omega arith) (omega arith))
    ∙ ap (λ n. n / 2 ^ 64)
        (sym (expand a_hi a_lo b_hi b_lo)
          ∙ ap₂ (λ x y. x * y) (div-add-mod' a (2 ^ 32)) (div-add-mod' b (2 ^ 32)))
  where
    a_hi : ℕ
    a_hi = a / 2 ^ 32

    a_lo : ℕ
    a_lo = a % 2 ^ 32

    b_hi : ℕ
    b_hi = b / 2 ^ 32

    b_lo : ℕ
    b_lo = b % 2 ^ 32
