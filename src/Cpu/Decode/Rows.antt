-- ===== src/Cpu/Decode/Rows.antt =====
-- Which row of the table a word gets.
use mathlib.Core.Path.{subst}
use rv64_emulator.Common.{
  ℕ, zero, suc, ◌≡◌, refl, sym, ap, ◌∙◌, arith, inl, inr, Bool, true, false, Bool-cases,
}
use rv64_emulator.Common.{◌&&◌, ◌||◌, not, bit_and, ◌==◌, ==_iff}
use rv64_emulator.Common.{List, [], ◌∷◌, some, get_elem?}
use rv64_emulator.Bits.Digit.{bits_ext, bit-bit_and}
use rv64_emulator.Cpu.Decode.Table.{InstToken, InstDesc, inst_table, first_match, get_token}

-- FENCE.TSO and PAUSE, whose words FENCE matches first.
abbrev pub is_shadowed : InstToken → Bool
is_shadowed InstToken.fence_tso = true
is_shadowed InstToken.pause = true
is_shadowed _ = false

-- No word matches both rows.
abbrev apart : InstDesc → InstDesc → Bool
apart q r = not (bit_and q.signature r.mask == bit_and r.signature q.mask)

-- The row is apart from each of the later ones but the shadowed.
abbrev apart_from : InstDesc → List InstDesc → Bool
apart_from q [] = true
apart_from q (r ∷ rs) = (apart q r || is_shadowed r.token) && apart_from q rs

abbrev all_apart : List InstDesc → Bool
all_apart [] = true
all_apart (q ∷ rs) = apart_from q rs && all_apart rs

abbrev Matches : ℕ → InstDesc → Type 0
Matches word r = bit_and word r.mask ≡ r.signature

bit_and_swap : (w a b : ℕ) → bit_and (bit_and w a) b ≡ bit_and (bit_and w b) a
bit_and_swap w a b = bits_ext _ _ λ i. ground (
  arith,
  bit-bit_and (bit_and w a) b i,
  bit-bit_and w a i,
  bit-bit_and (bit_and w b) a i,
  bit-bit_and w b i,
)

not_both :
    (word : ℕ) (q r : InstDesc)
    → apart q r ≡ true
    → Matches word r
    → (bit_and word q.mask == q.signature) ≡ false
not_both word q r h m = elim (Bool-cases (bit_and word q.mask == q.signature)) [
  | inl e ↦
      let same : bit_and q.signature r.mask ≡ bit_and r.signature q.mask =
        ap (λ s. bit_and s r.mask) (sym ((==_iff _ _).0 e))
        ∙ (bit_and_swap word q.mask r.mask ∙ ap (λ s. bit_and s q.mask) m) in
      ground (arith, (==_iff _ _).1 same)
  | inr e ↦ e
]

some_injective : {a b : InstDesc} → some a ≡ some b → a ≡ b
some_injective e = cc

left_of : (a b : Bool) → (a || b) ≡ true → b ≡ false → a ≡ true
left_of a b h e = ground arith

earlier_apart :
    (q r : InstDesc) (rs : List InstDesc) (i : ℕ)
    → apart_from q rs ≡ true
    → get_elem? rs i ≡ some r
    → is_shadowed r.token ≡ false
    → apart q r ≡ true
earlier_apart q r [] i h e f = cc
earlier_apart q r (p ∷ rs) zero h e f =
    let same : p ≡ r = some_injective e in
    let either : (apart q p || is_shadowed p.token) ≡ true = ground arith in
    subst (λ x. apart q x ≡ true) same
      (left_of (apart q p) _ either (ap (λ x. is_shadowed x.token) same ∙ f))
earlier_apart q r (p ∷ rs) (suc i) h e f = earlier_apart q r rs i (ground arith) e f

first_match_row :
    (rs : List InstDesc) (i word : ℕ) (r : InstDesc)
    → all_apart rs ≡ true
    → get_elem? rs i ≡ some r
    → is_shadowed r.token ≡ false
    → Matches word r
    → first_match rs word ≡ r.token
unfolding first_match
first_match_row [] i word r h e f m = cc
first_match_row (q ∷ rs) zero word r h e f m =
    let same : q ≡ r = some_injective e in
    rw ((==_iff _ _).1 (subst (Matches word) (sym same) m)) (ap (λ x. x.token) same)
first_match_row (q ∷ rs) (suc i) word r h e f m =
    rw (not_both word q r (earlier_apart q r rs i (ground arith) e f) m)
      (first_match_row rs i word r (ground arith) e f m)

table_apart : all_apart inst_table ≡ true
unfolding inst_table
table_apart = refl

-- A word that matches a row of the table gets the token of that row, whatever its other bits, unless
-- the row is that of FENCE.TSO or PAUSE.
pub get_token_row :
    (i word : ℕ) (r : InstDesc)
    → get_elem? inst_table i ≡ some r
    → is_shadowed r.token ≡ false
    → bit_and word r.mask ≡ r.signature
    → get_token word ≡ r.token
unfolding get_token
get_token_row i word r e f m = first_match_row inst_table i word r table_apart e f m
