-- ===== src/Cpu/Executor/Divide.antt =====
-- DIV and REM against division with remainder.
use mathlib.Core.Path.{subst}
use native.Mathlib.Nat.{div-add-mod', div-le_self, mod-lt}
use rv64_emulator.Common.{
  ℕ, zero, suc, ◌+◌, ◌-◌, ◌*◌, ◌/◌, ◌%◌, ◌^◌, ◌<◌, ◌≤◌, ◌≡◌, ◌≢◌, refl, sym, ap, arith, ◌⊎◌, inl,
  inr,
}
use rv64_emulator.Common.{true, false, Bool-cases, ◌&&◌, ltb, ◌==◌, ==_iff}
use rv64_emulator.Words.{abs64, to_signed, of_signed, neg, tdiv, tmod, add_wrap, mul_wrap}
use rv64_emulator.Cpu.Executor.Alu.{div, rem, int64_min, uint64_max}
use rv64_emulator.Cpu.Executor.Multiply.{two_parts, two_parts_right}

-- The word of a number with a minus sign.
abbrev minus : ℕ → ℕ
minus q = of_signed 64 (neg q)

-- A product with minus q, up to a multiple of 2 ^ 64.
minus_times :
    (q b : ℕ) → q < 2 ^ 64 → (k : ℕ) × (minus q * b + q * b ≡ 2 ^ 64 * k) × (minus q < 2 ^ 64)
minus_times zero b h = (0, omega arith, omega arith)
minus_times (suc q) b h =
    let sum : minus (suc q) + suc q ≡ 2 ^ 64 = omega arith in
    (b, two_parts (minus (suc q)) (suc q) (2 ^ 64) b sum, omega arith)

minus_word : (q : ℕ) → q < 2 ^ 64 → minus q ≡ (2 ^ 64 - q) % 2 ^ 64
minus_word zero h = omega arith
minus_word (suc q) h = omega arith

small_times : (q b : ℕ) → q < 2 ^ 64 → q % 2 ^ 64 * b ≡ q * b
small_times q b h = let small : q % 2 ^ 64 ≡ q = omega arith in ap (λ x. x * b) small

-- Quotient and remainder of the magnitudes, with the signs put back.
positive_negative :
    (a b d q r : ℕ)
    → b + d ≡ 2 ^ 64
    → q * d + r ≡ a
    → a < 2 ^ 64
    → q ≤ a
    → (minus q * b + r % 2 ^ 64) % 2 ^ 64 ≡ a
positive_negative a b d q r e f h k =
    let (m, product, word) = minus_times q b (omega arith) in
    omega (arith, product, two_parts_right q b d (2 ^ 64) e)

negative_positive :
    (a b e q r : ℕ)
    → a + e ≡ 2 ^ 64
    → q * b + r ≡ e
    → e < 2 ^ 64
    → q ≤ e
    → (minus q * b + minus r) % 2 ^ 64 ≡ a % 2 ^ 64
negative_positive a b e q r s f h k =
    let (m, product, word) = minus_times q b (omega arith) in
    omega (arith, product, minus_word r (omega arith))

negative_negative :
    (a b d e q r : ℕ)
    → a + e ≡ 2 ^ 64
    → b + d ≡ 2 ^ 64
    → q * d + r ≡ e
    → e < 2 ^ 64
    → q ≤ e
    → (q % 2 ^ 64 * b + minus r) % 2 ^ 64 ≡ a % 2 ^ 64
negative_negative a b d e q r s t f h k = omega (
  arith,
  small_times q b (omega arith),
  two_parts_right q b d (2 ^ 64) t,
  minus_word r (omega arith),
)

-- The identity, on the two values of the last branch.
abbrev Restores : ℕ → ℕ → Type 0
Restores a b =
    (of_signed 64 (tdiv (to_signed 64 a) (to_signed 64 b)) * b
        + of_signed 64 (tmod (to_signed 64 a) (to_signed 64 b)))
      % 2 ^ 64
    ≡ a

restores : (a b : ℕ) → a < 2 ^ 64 → b < 2 ^ 64 → 0 < b → Restores a b
restores a b h k n = elim (Bool-cases (ltb a (2 ^ 63))) [
  | inl e ↦ elim (Bool-cases (ltb b (2 ^ 63))) [
    | inl f ↦
        rw (e, f)
          (omega (
            arith,
            div-add-mod' a b,
            div-le_self a b,
            small_times (a / b) b (omega (arith, div-le_self a b)),
          ))
    | inr f ↦
        let d : ℕ = suc (2 ^ 64 - 1 - b) in
        rw (e, f)
          (positive_negative a b d (a / d) (a % d) (omega arith) (div-add-mod' a d) h
            (div-le_self a d))
  ]
  | inr e ↦
      let m : ℕ = suc (2 ^ 64 - 1 - a) in
      elim (Bool-cases (ltb b (2 ^ 63))) [
        | inl f ↦
            rw (e, f)
              (omega (
                arith,
                negative_positive a b m (m / b) (m % b) (omega arith) (div-add-mod' m b)
                    (ground arith) (div-le_self m b),
              ))
        | inr f ↦
            let d : ℕ = suc (2 ^ 64 - 1 - b) in
            rw (e, f)
              (omega (
                arith,
                negative_negative a b d m (m / d) (m % d) (omega arith) (omega arith)
                    (div-add-mod' m d) (ground arith) (div-le_self m d),
              ))
      ]
]

-- The remainder of the last branch: its magnitude, and its sign.
abbrev last_rem : ℕ → ℕ → ℕ
last_rem a b = of_signed 64 (tmod (to_signed 64 a) (to_signed 64 b))

abbrev Small : ℕ → ℕ → ℕ → Type 0
Small a b r = (abs64 r < abs64 b) × ((r ≡ 0) ⊎ (ltb r (2 ^ 63) ≡ ltb a (2 ^ 63)))

positive-Small :
    (a b d r : ℕ)
    → ltb a (2 ^ 63) ≡ true
    → r < d
    → d ≤ 2 ^ 63
    → abs64 b ≡ d
    → Small a b (r % 2 ^ 64)
positive-Small a b d r e h k f = ground arith

negative-Small :
    (a b d r : ℕ) → ltb a (2 ^ 63) ≡ false → r < d → d ≤ 2 ^ 63 → abs64 b ≡ d → Small a b (minus r)
negative-Small a b d zero e h k f = ground arith
negative-Small a b d (suc r) e h k f = ground arith

last_rem-Small : (a b : ℕ) → a < 2 ^ 64 → b < 2 ^ 64 → 0 < b → Small a b (last_rem a b)
last_rem-Small a b h k n = elim (Bool-cases (ltb a (2 ^ 63))) [
  | inl e ↦ elim (Bool-cases (ltb b (2 ^ 63))) [
    | inl f ↦
        subst (Small a b) (rw (e, f) refl)
          (positive-Small a b b (a % b) e (mod-lt a n) (ground arith) (ground arith))
    | inr f ↦
        let d : ℕ = suc (2 ^ 64 - 1 - b) in
        subst (Small a b) (rw (e, f) refl)
          (positive-Small a b d (a % d) e (mod-lt a (omega arith)) (ground arith) (ground arith))
  ]
  | inr e ↦
      let m : ℕ = suc (2 ^ 64 - 1 - a) in
      elim (Bool-cases (ltb b (2 ^ 63))) [
        | inl f ↦
            subst (Small a b) (rw (e, f) refl)
              (negative-Small a b b (m % b) e (mod-lt m n) (ground arith) (ground arith))
        | inr f ↦
            let d : ℕ = suc (2 ^ 64 - 1 - b) in
            subst (Small a b) (rw (e, f) refl) (
              negative-Small a b d (m % d) e (mod-lt m (omega arith)) (ground arith) (ground arith))
      ]
]

-- Division of signed words that rounds towards zero: dividend = quotient * divisor + remainder on 64
-- bits, and the remainder is smaller than the divisor and zero or of the sign of the dividend.
pub record IsDivision (a b q r : ℕ) : Type 0 where
  identity : add_wrap 64 (mul_wrap 64 q b) r ≡ a
  smaller : b ≢ 0 → abs64 r < abs64 b
  sign : (r ≡ 0) ⊎ (ltb r (2 ^ 63) ≡ ltb a (2 ^ 63))

by_zero : (a : ℕ) → a < 2 ^ 64 → IsDivision a 0 uint64_max a
by_zero a h = record { identity = omega arith; smaller = λ ne. absurd (ne refl); sign = inr refl }

overflow : IsDivision int64_min uint64_max int64_min 0
overflow = record { identity = refl; smaller = λ ne. ground arith; sign = inl refl }

-- DIV and REM give a quotient and a remainder of every two words: towards zero, with the whole
-- dividend as the remainder where the divisor is zero, and also for the one quotient that overflows.
pub div-rem : (a b : ℕ) → a < 2 ^ 64 → b < 2 ^ 64 → IsDivision a b (div a b) (rem a b)
unfolding div rem
div-rem a b h k = elim (Bool-cases (b == 0)) [
  | inl e ↦
      rw (div, rem, e)
        (subst (λ x. IsDivision a x uint64_max a) (sym ((==_iff b 0).0 e)) (by_zero a h))
  | inr e ↦ elim (Bool-cases (a == int64_min && b == uint64_max)) [
    | inl f ↦
        let left : a ≡ int64_min = ground arith in
        let right : b ≡ uint64_max = ground arith in
        rw (div, rem, e, f)
          (subst (λ x. IsDivision x b int64_min 0) (sym left)
            (subst (λ x. IsDivision int64_min x int64_min 0) (sym right) overflow))
    | inr f ↦
        let small : Small a b (last_rem a b) = last_rem-Small a b h k (ground arith) in
        rw (div, rem, e, f)
          (record {
            identity = omega (arith, restores a b h k (ground arith));
            smaller = λ ne. small.0;
            sign = small.1;
          })
  ]
]
