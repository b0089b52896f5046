-- ===== src/Platform/Analyzer/Totals.antt =====
-- What the analyzer counts in the sections of a program.
use rv64_emulator.Common.{
  ℕ, ◌%◌, ◌^◌, ◌≡◌, ◌≢◌, refl, sym, ap, ◌∙◌, arith, ◌⊎◌, inl, inr, false, Bool-cases,
}
use rv64_emulator.Common.{List, [], ◌∷◌, ◌++◌, some, length, map, words_to_bytes}
use rv64_emulator.Bits.Digit.{bit}
use rv64_emulator.Bits.Mask.{bit_and-power}
use rv64_emulator.Words.{ℤ}
use rv64_emulator.Platform.Sections.{Section}
use rv64_emulator.Platform.Analyzer.{
  Counter, is_code, row_of, scan_section, scan_sections, inst_cnt,
}
use rv64_emulator.Platform.Analyzer.FirstRow.{AreKeys, map-AreKeys}
use rv64_emulator.Platform.Analyzer.Counts.{
  AllLong, counted, frequency, occurrences, scan_section-counted, counted-frequency,
  counted-inst_cnt,
}

-- A section with instructions, of the type PROGBITS (1) with the flag EXECINSTR (bit 2), that holds
-- these words, each of four bytes.
pub record HoldsCode (sec : Section) (ws : List ℕ) : Type 0 where
  pub type : sec.type ≡ 1
  pub flag : bit sec.flags 2 ≡ 1
  pub contents : sec.contents ≡ words_to_bytes 4 ws
  pub long : AllLong ws

-- A section without instructions has no words.
pub record HoldsNoCode (sec : Section) (ws : List ℕ) : Type 0 where
  pub other : (sec.type ≢ 1) ⊎ (bit sec.flags 2 ≡ 0)
  pub empty : ws ≡ []

-- The words of each of the sections.
abbrev pub SectionWords : List Section → List (List ℕ) → Type 0
SectionWords [] [] = Unit {0}
SectionWords (sec ∷ secs) (ws ∷ wss) =
    (HoldsCode sec ws ⊎ HoldsNoCode sec ws) × SectionWords secs wss
SectionWords _ _ = ⊥

abbrev pub all_words : List (List ℕ) → List ℕ
all_words [] = []
all_words (ws ∷ wss) = ws ++ all_words wss

counted-append : (vs ws : List ℕ) (c : Counter) → counted (vs ++ ws) c ≡ counted ws (counted vs c)
counted-append [] ws c = refl
counted-append (v ∷ vs) ws c = counted-append vs ws _

not_executable : (sec : Section) → (sec.type ≢ 1) ⊎ (bit sec.flags 2 ≡ 0) → is_code sec ≡ false
unfolding is_code
not_executable sec (inl other) = elim (Bool-cases (is_code sec)) [
  | inl e ↦ absurd (other (ground arith))
  | inr e ↦ e
]
not_executable sec (inr flag) = ground (arith, bit_and-power 2 sec.flags)

section_counted :
    (sec : Section) (ws : List ℕ) (c : Counter)
    → HoldsCode sec ws ⊎ HoldsNoCode sec ws
    → scan_section sec c ≡ some (counted ws c)
unfolding scan_section
section_counted sec ws c (inl code) =
    scan_section-counted sec ws c code.type code.flag code.contents code.long
section_counted sec ws c (inr no_code) = rw (not_executable sec no_code.other, no_code.empty) refl

scan_sections-counted :
    (secs : List Section) (wss : List (List ℕ)) (c : Counter)
    → SectionWords secs wss
    → scan_sections secs c ≡ some (counted (all_words wss) c)
unfolding scan_sections
scan_sections-counted [] [] c h = refl
scan_sections-counted [] (ws ∷ wss) c h = absurd h
scan_sections-counted (sec ∷ secs) [] c h = absurd h
scan_sections-counted (sec ∷ secs) (ws ∷ wss) c h =
    rw (scan_sections, section_counted sec ws c h.0)
      (scan_sections-counted secs wss (counted ws c) h.1
        ∙ ap some (sym (counted-append ws (all_words wss) c)))

-- In a program whose sections with instructions, those of the type PROGBITS (1) with the flag
-- EXECINSTR (bit 2), hold four-byte instructions, each instruction has a key, the first row of the
-- table whose signature it has under the mask of the row, or -1 where there is none; the analyzer
-- counts each key as often as an instruction of these sections has it, whatever the other sections
-- hold, and the sum of the counters is the number of instructions, all modulo 2 ^ 32.
pub scan_sections-SectionWords :
    (secs : List Section) (wss : List (List ℕ))
    → SectionWords secs wss
    → (keys : List ℤ) × (counter : Counter) × AreKeys (all_words wss) keys
      × (scan_sections secs [] ≡ some counter)
      × ((key : ℤ) → frequency key counter ≡ occurrences key keys % 2 ^ 32)
      × (inst_cnt 0 counter ≡ length (all_words wss) % 2 ^ 32)
scan_sections-SectionWords secs wss h = (
  map row_of (all_words wss),
  counted (all_words wss) [],
  map-AreKeys (all_words wss),
  scan_sections-counted secs wss [] h,
  (λ key. counted-frequency key (all_words wss)),
  counted-inst_cnt (all_words wss),
)
