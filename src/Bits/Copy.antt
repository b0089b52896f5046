-- ===== src/Bits/Copy.antt =====
-- Copying a set of bit-fields from one word to another, field by field, as the code does it.
use rv64_emulator.Common.{ℕ, ◌≡◌, refl, arith, Bool, false}
use rv64_emulator.Common.{◌||◌, if◌then◌else◌, List, [], ◌∷◌}
use rv64_emulator.Bits.Digit.{bit}
use rv64_emulator.Bits.Fields.{field, set_field, within, bit-set_field, bit-field}

-- The fields as pairs of an offset and a width.
abbrev pub Layout : Type 0
Layout = List (ℕ × ℕ)

-- `dst.f = src.f` for each field in turn.
unfoldable pub copy_fields : Layout → ℕ → ℕ → ℕ
copy_fields [] src dst = dst
copy_fields ((lo, w) ∷ fs) src dst = copy_fields fs src (set_field dst lo w (field src lo w))

unfoldable pub covers : Layout → ℕ → Bool
covers [] i = false
covers ((lo, w) ∷ fs) i = covers fs i || within lo w i

bit-copy_field :
    (src dst lo w i : ℕ)
    → bit (set_field dst lo w (field src lo w)) i ≡ (if within lo w i then bit src i else bit dst i)
bit-copy_field src dst lo w i =
    ground (arith, bit-set_field dst lo w (field src lo w) i, bit-field src lo w i)

-- The copied bits are those of the source, and all others those of the destination.
pub bit-copy_fields :
    (fs : Layout) (src dst i : ℕ)
    → bit (copy_fields fs src dst) i ≡ (if covers fs i then bit src i else bit dst i)
unfolding copy_fields covers
bit-copy_fields [] src dst i = refl
bit-copy_fields ((lo, w) ∷ fs) src dst i = ground (
  arith,
  bit-copy_fields fs src (set_field dst lo w (field src lo w)) i,
  bit-copy_field src dst lo w i,
)
