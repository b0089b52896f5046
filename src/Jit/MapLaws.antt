-- ===== src/Jit/MapLaws.antt =====
-- The two tables of registers are inverse to each other.
use mathlib.Core.Path.{subst}
use rv64_emulator.Common.{
  ℕ, zero, suc, ◌<◌, ◌≤◌, ◌≡◌, refl, sym, ap, ◌∙◌, arith, Bool, true, false, Bool-cases, ltb, inl,
  inr,
}
use rv64_emulator.Common.{List, [], ◌∷◌, length, get_elem?, Option, none, some, Option-cases, ◌==◌}
use rv64_emulator.Bits.Digit.{all_below, all_below_sound}
use rv64_emulator.Jit.Asm.{Gp, gp, zr, sp}
use rv64_emulator.Jit.Map.{a64_reg, rv64_reg, rv64_to_a64_map, join}

-- Register `r`, if it has one of the host, is the one that this maps to.
abbrev comes_back : ℕ → Option Gp → Bool
comes_back r none = true
comes_back r (some zr) = true
comes_back r (some sp) = true
comes_back r (some (gp d)) = elim (rv64_reg d) [ none ↦ false | some r' ↦ r' == r ]

comes_back_table : all_below 32 (λ r. comes_back r (a64_reg r)) ≡ true
unfolding all_below a64_reg rv64_reg
comes_back_table = refl

get_elem?_past : {A : Type 0} (l : List A) (i : ℕ) → length l ≤ i → get_elem? l i ≡ none
get_elem?_past [] i h = refl
get_elem?_past (x ∷ l) zero h = absurd (omega arith)
get_elem?_past (x ∷ l) (suc i) h = get_elem?_past l i (omega arith)

past_table : (r : ℕ) → 32 ≤ r → a64_reg r ≡ none
unfolding a64_reg
past_table r h = ap join (get_elem?_past rv64_to_a64_map r h)

below_table : (r : ℕ) (g : Gp) → a64_reg r ≡ some g → r < 32
below_table r g e = elim (Bool-cases (ltb r 32)) [
  | inl y ↦ ground arith
  | inr n ↦ ground (arith, past_table r)
]

-- A register of the hart that is in register `d` of the host is the one that `d` stands for.
pub rv64_reg-a64_reg : (r d : ℕ) → a64_reg r ≡ some (gp d) → rv64_reg d ≡ some r
rv64_reg-a64_reg r d e = named (
    subst (λ o. comes_back r o ≡ true) e
      (all_below_sound 32 _ r comes_back_table (below_table r (gp d) e)))
  where
    named : comes_back r (some (gp d)) ≡ true → rv64_reg d ≡ some r
    named h = elim (Option-cases (rv64_reg d)) [
      | inl n ↦ ground arith
      | inr (r', q) ↦ q ∙ ap some (ground arith)
    ]

-- No two registers of the hart are in the same register of the host.
pub a64_reg_injective : (r r' d : ℕ) → a64_reg r ≡ some (gp d) → a64_reg r' ≡ some (gp d) → r ≡ r'
a64_reg_injective r r' d e e' =
    ground (arith, sym (rv64_reg-a64_reg r d e) ∙ rv64_reg-a64_reg r' d e')
