-- ===== src/Platform/Analyzer/FirstRow.antt =====
-- The row of a word, by the bits that the rows of the table fix.
use mathlib.Core.Path.{subst}
use rv64_emulator.Common.{
  ℕ, zero, suc, min, ◌+◌, ◌≡◌, refl, sym, ap, ◌∙◌, arith, ◌↔◌, ◌⊎◌, inl, inr,
}
use rv64_emulator.Common.{map, List, [], ◌∷◌, Bool, true, Bool-cases, bit_and, ◌==◌, ◌&&◌, ==_iff}
use rv64_emulator.Bits.Digit.{bit, bit-lt, bits_ext, bit-bit_and}
use rv64_emulator.Words.{ℤ, pos, negsuc}
use rv64_emulator.Cpu.Decode.Table.{InstDesc, inst_table}
use rv64_emulator.Platform.Analyzer.{row_from, row_of}

-- The word has the signature's bits where the mask of the row has ones.
abbrev pub HasPattern : ℕ → InstDesc → Type 0
HasPattern word inst = (i : ℕ) → bit inst.mask i ≡ 1 → bit word i ≡ bit inst.signature i

-- The word has the pattern of row `i` and of none before it.
abbrev pub FirstIn : List InstDesc → ℕ → ℕ → Type 0
FirstIn [] word i = ⊥
FirstIn (inst ∷ insts) word zero = HasPattern word inst
FirstIn (inst ∷ insts) word (suc i) = (HasPattern word inst → ⊥) × FirstIn insts word i

-- The word has the pattern of no row.
abbrev pub NoneIn : List InstDesc → ℕ → Type 0
NoneIn [] word = Unit {0}
NoneIn (inst ∷ insts) word = (HasPattern word inst → ⊥) × NoneIn insts word

-- The key under which a word is counted: its first row in the table, or -1.
abbrev pub IsKey : ℕ → ℤ → Type 0
IsKey word (pos i) = FirstIn inst_table word i
IsKey word (negsuc zero) = NoneIn inst_table word
IsKey word (negsuc (suc n)) = ⊥

-- A signature has no bit outside its mask.
abbrev fits_mask : List InstDesc → Bool
fits_mask [] = true
fits_mask (inst ∷ insts) = (bit_and inst.signature inst.mask == inst.signature) && fits_mask insts

inst_table_fits : fits_mask inst_table ≡ true
unfolding inst_table
inst_table_fits = refl

pattern_test :
    (word : ℕ) (inst : InstDesc)
    → (bit_and inst.signature inst.mask == inst.signature) ≡ true
    → (bit_and word inst.mask == inst.signature) ≡ true ↔ HasPattern word inst
pattern_test word inst fits = (
  λ e i one. ground (arith, at_word e i, bit-lt word i),
  λ has. (==_iff _ _).1 (
      bits_ext _ _ λ i. ground (
        arith,
        has i,
        bit-bit_and word inst.mask i,
        at_signature i,
        bit-lt word i,
        bit-lt inst.mask i,
        bit-lt inst.signature i,
      )),
)
  where
    at_word :
        (bit_and word inst.mask == inst.signature) ≡ true
        → (i : ℕ) → min (bit word i) (bit inst.mask i) ≡ bit inst.signature i
    at_word e i = sym (bit-bit_and word inst.mask i) ∙ ap (λ n. bit n i) ((==_iff _ _).0 e)

    at_signature : (i : ℕ) → min (bit inst.signature i) (bit inst.mask i) ≡ bit inst.signature i
    at_signature i =
        sym (bit-bit_and inst.signature inst.mask i) ∙ ap (λ n. bit n i) ((==_iff _ _).0 fits)

row_from-IsKey :
    (insts : List InstDesc) (k word : ℕ)
    → fits_mask insts ≡ true
    → ((i : ℕ) × (row_from k insts word ≡ pos (k + i)) × FirstIn insts word i)
      ⊎ ((row_from k insts word ≡ negsuc 0) × NoneIn insts word)
unfolding row_from
row_from-IsKey [] k word h = inr (refl, tt)
row_from-IsKey (inst ∷ insts) k word h =
    let fits : (bit_and inst.signature inst.mask == inst.signature) ≡ true = ground arith in
    elim (Bool-cases (bit_and word inst.mask == inst.signature)) [
      | inl e ↦ inl (0, rw e (ap pos (omega arith)), (pattern_test word inst fits).0 e)
      | inr e ↦
          let other : HasPattern word inst → ⊥ =
            λ has. cc (e, (pattern_test word inst fits).1 has) in
          elim (row_from-IsKey insts (suc k) word (ground arith)) [
            | inl (i, at, first) ↦ inl (suc i, rw e (at ∙ ap pos (omega arith)), (other, first))
            | inr (at, none_in) ↦ inr (rw e at, (other, none_in))
          ]
    ]

-- The loop of the analyzer finds the key of a word.
pub row_of-IsKey : (word : ℕ) → IsKey word (row_of word)
unfolding row_of
row_of-IsKey word = elim (row_from-IsKey inst_table 0 word inst_table_fits) [
  | inl (i, at, first) ↦
      let found : row_from 0 inst_table word ≡ pos i = at ∙ ap pos (omega arith) in
      subst (IsKey word) (sym found) first
  | inr (at, none_in) ↦ subst (IsKey word) (sym at) none_in
]

-- The keys of a list of words, in their order.
abbrev pub AreKeys : List ℕ → List ℤ → Type 0
AreKeys [] [] = Unit {0}
AreKeys (w ∷ ws) (key ∷ keys) = IsKey w key × AreKeys ws keys
AreKeys _ _ = ⊥

pub map-AreKeys : (ws : List ℕ) → AreKeys ws (map row_of ws)
map-AreKeys [] = tt
map-AreKeys (w ∷ ws) = (row_of-IsKey w, map-AreKeys ws)
