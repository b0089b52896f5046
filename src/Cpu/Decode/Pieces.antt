-- ===== src/Cpu/Decode/Pieces.antt =====
-- The bits of the pieces that an immediate is put together from.
use native.Mathlib.Nat.{pow-suc, mul-one, mod-lt, one-le-pow}
use rv64_emulator.Common.{ℕ, zero, suc, ◌+◌, ◌-◌, ◌*◌, ◌/◌, ◌^◌, ◌<◌, ◌≤◌, ltb, leb}
use rv64_emulator.Common.{◌&&◌, ◌≡◌, refl, ap, ◌∙◌, arith, if◌then◌else◌}
use rv64_emulator.Bits.Digit.{bit}
use rv64_emulator.Bits.Fields.{field, bit-shift, bit-mod}
use rv64_emulator.Bits.Sign.{sign_extended}
use rv64_emulator.Cpu.Decode.Imm.{signed_field, shl32}

bit-mul_pow : (x k i : ℕ) → bit (x * 2 ^ k) i ≡ (if leb k i then bit x (i - k) else 0)
bit-mul_pow x zero i = simp (mul-one) (ground arith)
bit-mul_pow x (suc k) zero = grind (arith, ap (λ (t : ℕ). x * t) (pow-suc 2 k))
bit-mul_pow x (suc k) (suc i) = ap (λ n. bit n i) half ∙ (bit-mul_pow x k i ∙ ground arith)
  where
    half : x * 2 ^ suc k / 2 ≡ x * 2 ^ k
    half = omega (arith, ap (λ (t : ℕ). x * t) (pow-suc 2 k))

pub bit-shl32 :
    (x k i : ℕ)
    → bit (shl32 x k) i ≡ (if ltb i 32 then (if leb k i then bit x (i - k) else 0) else 0)
bit-shl32 x k i = bit-mod (x * 2 ^ k) 32 i ∙ ap (λ n. if ltb i 32 then n else 0) (bit-mul_pow x k i)

pub bit-field_at : (v lo w i : ℕ) → bit (field v lo w) i ≡ (if ltb i w then bit v (lo + i) else 0)
bit-field_at v lo w i =
    bit-mod (v / 2 ^ lo) w i ∙ ap (λ n. if ltb i w then n else 0) (bit-shift v lo i)

-- Each bit of `int32_t f : suc p`.
pub bit-signed_field :
    (v lo p i : ℕ)
    → p < 32
    → (2 ^ 32 - 1) / 2 ^ suc p * 2 ^ suc p ≡ 2 ^ 32 - 2 ^ suc p
    → bit (signed_field v lo (suc p)) i
      ≡ (if ltb i 32 then (if leb i p then bit v (lo + i) else bit v (lo + p)) else 0)
bit-signed_field v lo p i small mask = rw before (
    sign_extended 32 (field v lo (suc p)) p i small fits mask
    ∙ rw (bit-field_at v lo (suc p) i, bit-field_at v lo (suc p) p) (ground arith))
  where
    before : suc p - 1 ≡ p
    before = omega arith

    fits : field v lo (suc p) < 2 ^ suc p
    fits = mod-lt (v / 2 ^ lo) (one-le-pow (suc p) 2 (omega arith))

-- A field and a sign bit, shifted to their place in the immediate.
abbrev pub placed : ℕ → ℕ → ℕ → ℕ → ℕ → ℕ
placed v lo w k i = if leb k i && ltb i (k + w) then bit v (lo + (i - k)) else 0

pub bit-placed : (v lo w k i : ℕ) → k + w ≤ 32 → bit (shl32 (field v lo w) k) i ≡ placed v lo w k i
bit-placed v lo w k i h = ground (arith, bit-shl32 (field v lo w) k i, bit-field_at v lo w (i - k))

abbrev pub sign_from : ℕ → ℕ → ℕ → ℕ
sign_from v k i = if leb k i && ltb i 32 then bit v 31 else 0

pub bit-sign_from : (v k i : ℕ) → bit (shl32 (signed_field v 31 1) k) i ≡ sign_from v k i
bit-sign_from v k i =
    ground (
      arith,
      bit-shl32 (signed_field v 31 1) k i,
      bit-signed_field v 31 0 (i - k) (omega arith) refl,
    )
