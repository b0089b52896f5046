-- ===== src/Bits/Fields.antt =====
-- Bit-fields of a word: `uint64_t f : w` at offset `lo`, read and written, and what each bit of the
-- word is after a write.
use native.Mathlib.Nat.{
  pow-suc, pow-succ', div-div-eq-div-mul, div-add-mod', div-one, mod-one, mul-one, zero-add,
}
use rv64_emulator.Common.{ℕ, zero, suc, ◌+◌, ◌-◌, ◌*◌, ◌/◌, ◌%◌, ◌^◌, ◌≤◌, ◌<◌}
use rv64_emulator.Common.{◌≡◌, sym, ap, ◌∙◌, arith, Bool, true, ◌&&◌, ltb, leb}
use rv64_emulator.Common.{if◌then◌else◌}
use rv64_emulator.Bits.Digit.{bit, bit-zero, bits_ext}

-- Reading the field of `w` bits at offset `lo`.
abbrev pub field : ℕ → ℕ → ℕ → ℕ
field v lo w = v / 2 ^ lo % 2 ^ w

-- Writing it: the bits of `x` that do not fit the field are dropped, and no other bit changes.
abbrev pub set_field : ℕ → ℕ → ℕ → ℕ → ℕ
set_field v lo w x = v % 2 ^ lo + x % 2 ^ w * 2 ^ lo + v / 2 ^ lo / 2 ^ w * (2 ^ w * 2 ^ lo)

pub div-pow-suc : (n k : ℕ) → n / 2 ^ suc k ≡ n / 2 / 2 ^ k
div-pow-suc n k = rw (pow-succ' 2 k) (sym (div-div-eq-div-mul n 2 (2 ^ k)))

pub mod-pow-suc : (n k : ℕ) → n % 2 ^ suc k ≡ n / 2 % 2 ^ k * 2 + n % 2
mod-pow-suc n k = omega (
  arith,
  div-add-mod' n (2 ^ suc k),
  div-add-mod' (n / 2) (2 ^ k),
  ap (λ (t : ℕ). t * 2 ^ suc k) (div-pow-suc n k),
  ap (λ (t : ℕ). n / 2 / 2 ^ k * t) (pow-succ' 2 k),
)

set_field-suc : (v lo w x : ℕ) → set_field v (suc lo) w x ≡ set_field (v / 2) lo w x * 2 + v % 2
set_field-suc v lo w x = omega (
  arith,
  mod-pow-suc v lo,
  ap (λ (t : ℕ). x % 2 ^ w * t) (pow-suc 2 lo),
  ap (λ (t : ℕ). t / 2 ^ w * (2 ^ w * 2 ^ suc lo)) (div-pow-suc v lo),
  ap (λ (t : ℕ). v / 2 / 2 ^ lo / 2 ^ w * (2 ^ w * t)) (pow-suc 2 lo),
)

abbrev set_low : ℕ → ℕ → ℕ → ℕ
set_low v w x = x % 2 ^ w + v / 2 ^ w * 2 ^ w

pub set_field-zero : (v w x : ℕ) → set_field v 0 w x ≡ set_low v w x
set_field-zero v w x = simp (div-one, mod-one, mul-one, zero-add)

set_low-suc : (v w x : ℕ) → set_low v (suc w) x ≡ set_low (v / 2) w (x / 2) * 2 + x % 2
set_low-suc v w x = omega (
  arith,
  mod-pow-suc x w,
  ap (λ (t : ℕ). t * 2 ^ suc w) (div-pow-suc v w),
  ap (λ (t : ℕ). v / 2 / 2 ^ w * t) (pow-suc 2 w),
)

abbrev pub within : ℕ → ℕ → ℕ → Bool
within lo w i = leb lo i && ltb i (lo + w)

bit-set_low : (v w x i : ℕ) → bit (set_low v w x) i ≡ (if within 0 w i then bit x i else bit v i)
bit-set_low v zero x i = ap (λ n. bit n i) (same) ∙ ground arith
  where
    same : set_low v 0 x ≡ v
    same = omega arith
bit-set_low v (suc w) x zero = ground (arith, set_low-suc v w x)
bit-set_low v (suc w) x (suc i) =
    rw (ap (λ n. bit n i) (half)) (bit-set_low (v / 2) w (x / 2) i ∙ ground arith)
  where
    half : set_low v (suc w) x / 2 ≡ set_low (v / 2) w (x / 2)
    half = omega (arith, set_low-suc v w x)

-- A write sets the bits of its field and no other.
pub bit-set_field :
    (v lo w x i : ℕ)
    → bit (set_field v lo w x) i ≡ (if within lo w i then bit x (i - lo) else bit v i)
bit-set_field v zero w x i = rw set_field-zero (bit-set_low v w x i ∙ ground arith)
bit-set_field v (suc lo) w x zero = ground (arith, set_field-suc v lo w x)
bit-set_field v (suc lo) w x (suc i) =
    rw (ap (λ n. bit n i) (half)) (bit-set_field (v / 2) lo w x i ∙ ground arith)
  where
    half : set_field v (suc lo) w x / 2 ≡ set_field (v / 2) lo w x
    half = omega (arith, set_field-suc v lo w x)

pub bit-shift : (v lo i : ℕ) → bit (v / 2 ^ lo) i ≡ bit v (lo + i)
bit-shift v zero i = rw (div-one, zero-add)
bit-shift v (suc lo) i = rw (div-pow-suc v lo) (bit-shift (v / 2) lo i ∙ ap (λ k. bit v k) (next))
  where
    next : suc (lo + i) ≡ suc lo + i
    next = omega arith

pub bit-mod : (v w i : ℕ) → bit (v % 2 ^ w) i ≡ (if ltb i w then bit v i else 0)
bit-mod v zero i = rw mod-one (bit-zero i ∙ ground arith)
bit-mod v (suc w) zero = ground (arith, mod-pow-suc v w)
bit-mod v (suc w) (suc i) = ap (λ n. bit n i) (half) ∙ (bit-mod (v / 2) w i ∙ ground arith)
  where
    half : v % 2 ^ suc w / 2 ≡ v / 2 % 2 ^ w
    half = omega (arith, mod-pow-suc v w)

-- The bits of a field, counted from the word's lowest bit.
pub bit-field : (v lo w i : ℕ) → within lo w i ≡ true → bit (field v lo w) (i - lo) ≡ bit v i
bit-field v lo w i h =
    ground (
      arith,
      bit-mod (v / 2 ^ lo) w (i - lo),
      bit-shift v lo (i - lo),
      ap (λ (k : ℕ). bit v k) (sum),
    )
  where
    sum : lo + (i - lo) ≡ i
    sum = ground arith

-- A number is below `2 ^ k` exactly when it has no bit from `k` on.
pub lt_of_bits : (k a : ℕ) → ((i : ℕ) → k ≤ i → bit a i ≡ 0) → a < 2 ^ k
lt_of_bits zero a none = omega (arith, bits_ext a 0 (λ i. none i (omega arith) ∙ sym (bit-zero i)))
lt_of_bits (suc k) a none =
    omega (arith, lt_of_bits k (a / 2) (λ i h. none (suc i) (omega arith)), pow-suc 2 k)

pub bit_of_lt : (k a i : ℕ) → a < 2 ^ k → k ≤ i → bit a i ≡ 0
bit_of_lt zero a i h le = ap (λ n. bit n i) (small) ∙ bit-zero i
  where
    small : a ≡ 0
    small = omega arith
bit_of_lt (suc k) a zero h le = absurd (omega arith)
bit_of_lt (suc k) a (suc i) h le = bit_of_lt k (a / 2) i (omega (arith, pow-suc 2 k)) (omega arith)
