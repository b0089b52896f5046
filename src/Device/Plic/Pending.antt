-- ===== src/Device/Plic/Pending.antt =====
-- The bit arrays of the interrupt controller: what is pending and what is claimed.
use native.Mathlib.Nat.{one-le-pow, pow-le-pow_right}
use rv64_emulator.Common.{
  ℕ, zero, suc, ◌*◌, ◌/◌, ◌%◌, ◌^◌, ◌≤◌, ◌<◌, ◌≡◌, refl, sym, ap, ◌∙◌, arith, inl, inr,
}
use rv64_emulator.Common.{
  Bool, true, false, Bool-cases, ◌==◌, ==_iff, ==_ne, ltb, ltb→lt, nonzero, if◌then◌else◌,
}
use rv64_emulator.Common.{
  List, length, get_or, set, length-set, get_or-set_self, get_or-set_ne, done,
}
use rv64_emulator.Common.{bit_and, bit_or}
use rv64_emulator.Bits.Digit.{bit, bit-lt, bit-bit_and, bit-bit_or, bit_not, bit-bit_not}
use rv64_emulator.Bits.Mask.{bit_and-power, bit-power}
use rv64_emulator.Device.Plic.{Plic, word_bits, has_bit, set_bit, clear_bit, update_ext}

-- The test reads one bit of one word.
has_bit-bit :
    (ws : List ℕ) (i : ℕ) → has_bit ws i ≡ (bit (get_or ws (i / word_bits) 0) (i % word_bits) == 1)
has_bit-bit ws i =
    let w = get_or ws (i / word_bits) 0 in
    let k = i % word_bits in
    rw (bit_and-power k w)
      (one_or_none (bit w k) (2 ^ k) (bit-lt w k) (one-le-pow k 2 (omega arith)))
  where
    one_or_none : (b m : ℕ) → b < 2 → 1 ≤ m → nonzero (b * m) ≡ (b == 1)
    one_or_none zero m h k = ground arith
    one_or_none (suc zero) m h k = ground arith
    one_or_none (suc (suc b)) m h k = absurd (omega arith)

-- A word whose bit `k` is set, or cleared.
bit_or-power : (w k i : ℕ) → bit (bit_or w (2 ^ k)) i ≡ (if i == k then 1 else bit w i)
bit_or-power w k i = ground (arith, bit-bit_or w (2 ^ k) i, bit-power k i, bit-lt w i)

bit_and-not_power :
    (w k i : ℕ)
    → k < 32
    → i < 32
    → bit (bit_and w (bit_not 32 (2 ^ k))) i ≡ (if i == k then 0 else bit w i)
bit_and-not_power w k i hk hi = ground (
  arith,
  bit-bit_and w (bit_not 32 (2 ^ k)) i,
  bit-bit_not 32 (2 ^ k) i (small_power) hi,
  bit-power k i,
  bit-lt w i,
)
  where
    small_power : 2 ^ k < 2 ^ 32
    small_power =
        omega (arith, pow-le-pow_right {n = 2} (omega arith) {i = k} {j = 31} (omega arith))

-- A write of the word that holds bit `i`, which changes that bit alone.
has_bit-set :
    (ws : List ℕ) (i j v b : ℕ)
    → i / word_bits < length ws
    → ((k : ℕ)
        → k < 32
        → bit v k ≡ (if k == i % word_bits then b else bit (get_or ws (i / word_bits) 0) k))
    → has_bit (set ws (i / word_bits) v) j ≡ (if j == i then b == 1 else has_bit ws j)
has_bit-set ws i j v b h law =
    has_bit-bit (set ws (i / word_bits) v) j ∙ elim (Bool-cases (j / word_bits == i / word_bits)) [
      | inl e ↦ here ((==_iff _ _).0 e)
      | inr e ↦ apart e
    ]
  where
    here :
        j / word_bits ≡ i / word_bits
        → (bit (get_or (set ws (i / word_bits) v) (j / word_bits) 0) (j % word_bits) == 1)
          ≡ (if j == i then b == 1 else has_bit ws j)
    here q =
        rw
          (
            has_bit-bit ws j,
            q,
            get_or-set_self ws (i / word_bits) v 0 h,
            law (j % word_bits) (omega arith),
          )
          (elim (Bool-cases (j == i)) [
            | inl e ↦ ground arith
            | inr e ↦ rw (e, ==_ne (j % word_bits) (i % word_bits) (λ r. ground arith)) refl
          ])

    apart :
        (j / word_bits == i / word_bits) ≡ false
        → (bit (get_or (set ws (i / word_bits) v) (j / word_bits) 0) (j % word_bits) == 1)
          ≡ (if j == i then b == 1 else has_bit ws j)
    apart e =
        rw
          (
            get_or-set_ne ws (i / word_bits) (j / word_bits) v 0 (λ q. ground arith),
            ==_ne j i (λ q. ground arith),
          )
          (sym (has_bit-bit ws j))

pub has_bit-set_bit :
    (ws : List ℕ) (i j : ℕ)
    → i / word_bits < length ws
    → has_bit (set_bit ws i) j ≡ (if j == i then true else has_bit ws j)
has_bit-set_bit ws i j h =
    has_bit-set ws i j _ 1 h λ k hk. bit_or-power (get_or ws (i / word_bits) 0) (i % word_bits) k

pub has_bit-clear_bit :
    (ws : List ℕ) (i j : ℕ)
    → i / word_bits < length ws
    → has_bit (clear_bit ws i) j ≡ (if j == i then false else has_bit ws j)
has_bit-clear_bit ws i j h =
    has_bit-set ws i j _ 0 h
      λ k hk. bit_and-not_power (get_or ws (i / word_bits) 0) (i % word_bits) k (omega arith) hk

updated :
    (p : Plic) (src_id j : ℕ) (fired : Bool)
    → src_id / word_bits < length p.pending
    → has_bit
        (if fired then set_bit (clear_bit p.pending src_id) src_id else clear_bit p.pending src_id)
        j
      ≡ (if j == src_id then fired else has_bit p.pending j)
updated p src_id j true h =
    has_bit-set_bit (clear_bit p.pending src_id) src_id j
      (omega (arith, length-set p.pending (src_id / word_bits) _))
    ∙ elim (Bool-cases (j == src_id)) [
      | inl e ↦ rw e refl
      | inr e ↦ rw e (has_bit-clear_bit p.pending src_id j h ∙ rw e refl)
    ]
updated p src_id j false h = has_bit-clear_bit p.pending src_id j h

-- An update of a source sets or clears that source alone.
pub update_ext_bits :
    (p p' : Plic) (src_id j : ℕ) (fired : Bool)
    → update_ext p src_id fired ≡ done p'
    → has_bit p'.pending j ≡ (if j == src_id then fired else has_bit p.pending j)
unfolding update_ext
update_ext_bits p p' src_id j fired e =
    elim (Bool-cases (ltb (src_id / word_bits) (length p.pending))) [
      | inl y ↦ ap (λ ws. has_bit ws j) (pending_of y) ∙ updated p src_id j fired (ltb→lt _ _ y)
      | inr n ↦ ground arith
    ]
  where
    pending_of :
        ltb (src_id / word_bits) (length p.pending) ≡ true
        → p'.pending ≡ (
            if fired
            then set_bit (clear_bit p.pending src_id) src_id
            else clear_bit p.pending src_id)
    pending_of y = ground arith
