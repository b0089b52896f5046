-- ===== src/Tests/Sections.antt =====
-- Sections of a program as the analyzer reads them.
use rv64_emulator.Common.{
  ℕ, ◌%◌, ◌^◌, ◌≡◌, refl, arith, inl, inr, List, [], ◌∷◌, some, length, words_to_bytes,
}
use rv64_emulator.Words.{ℤ}
use rv64_emulator.Platform.Sections.{Section}
use rv64_emulator.Platform.Analyzer.{Counter, scan_sections, inst_cnt}
use rv64_emulator.Platform.Analyzer.FirstRow.{AreKeys}
use rv64_emulator.Platform.Analyzer.Counts.{frequency, occurrences, AllLong}
use rv64_emulator.Platform.Analyzer.Totals.{all_words, scan_sections-SectionWords}

-- `addi x1, x0, 5` twice, and a word that no row matches.
abbrev three_words : List ℕ
three_words = 0x00500093 ∷ 0xffffffff ∷ 0x00500093 ∷ []

abbrev text_section : Section
text_section = record {
  type = 1;
  flags = 6;
  name_offset = 0;
  address = 0x80000000;
  contents = words_to_bytes 4 three_words;
}

all_long : AllLong three_words
all_long = (
  omega arith,
  λ e. omega arith,
  (omega arith, λ e. omega arith, (omega arith, λ e. omega arith, tt)),
)

-- The type of a section with code, but not the flag.
abbrev data_section : Section
data_section = record {
  type = 1;
  flags = 3;
  name_offset = 6;
  address = 0x80001000;
  contents = 1 ∷ 2 ∷ 3 ∷ [];
}

scan_sections-SectionWords_example :
    (keys : List ℤ) × (counter : Counter) × AreKeys (all_words (three_words ∷ [] ∷ [])) keys
    × (scan_sections (text_section ∷ data_section ∷ []) [] ≡ some counter)
    × ((key : ℤ) → frequency key counter ≡ occurrences key keys % 2 ^ 32)
    × (inst_cnt 0 counter ≡ length (all_words (three_words ∷ [] ∷ [])) % 2 ^ 32)
scan_sections-SectionWords_example =
    scan_sections-SectionWords (text_section ∷ data_section ∷ []) (three_words ∷ [] ∷ []) (
      inl (record { type = refl; flag = refl; contents = refl; long = all_long }),
      (inr (record { other = inr refl; empty = refl }), tt),
    )
