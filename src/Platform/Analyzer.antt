-- ===== src/Platform/Analyzer.antt =====
-- The analyzer of instruction frequencies: tools/rv_analyzer/rv_analyzer.cc. The sort of the
-- standard library is a parameter; percentages, which only the output shows, are left out.
pub mod FirstRow
pub mod Counts
pub mod Totals
use rv64_emulator.Common.{ℕ, zero, suc, ◌+◌, ◌-◌, ◌*◌, ◌/◌, ◌%◌, ◌^◌, Bool, true, false, ◌&&◌, not}
use rv64_emulator.Common.{◌==◌, nonzero, bit_and, if◌then◌else◌, of_le_bytes}
use rv64_emulator.Common.{List, [], ◌∷◌, Option, none, some, length, take, drop}
use rv64_emulator.Words.{ℤ, pos, negsuc, ltb_ℤ}
use rv64_emulator.Cpu.Decode.Table.{InstDesc, inst_table}
use rv64_emulator.Platform.Sections.{Section}

-- ELFIO::SHT_PROGBITS and ELFIO::SHF_EXECINSTR, whose values the ELF format fixes.
abbrev pub sht_progbits : ℕ
sht_progbits = 1

abbrev pub shf_execinstr : ℕ
shf_execinstr = 4

-- kMaxChars
abbrev pub max_chars : ℕ
max_chars = 40

-- `std::map<int32_t, uint32_t>`, in the order of its keys.
abbrev pub Counter : Type 0
Counter = List (ℤ × ℕ)

unfoldable pub same_key : ℤ → ℤ → Bool
same_key (pos a) (pos b) = a == b
same_key (pos a) (negsuc b) = false
same_key (negsuc a) (pos b) = false
same_key (negsuc a) (negsuc b) = a == b

-- `++counter[key]`
unfoldable pub increment : ℤ → Counter → Counter
unfolding same_key
increment key [] = (key, 1) ∷ []
increment key ((k, v) ∷ counter) =
    if same_key key k
    then (k, (v + 1) % 2 ^ 32) ∷ counter
    else if ltb_ℤ key k
    then (key, 1) ∷ (k, v) ∷ counter
    else (k, v) ∷ increment key counter

-- The loop over the table, from row `i` on: the key that it increments.
unfoldable pub row_from : ℕ → List InstDesc → ℕ → ℤ
row_from i [] word = negsuc 0
row_from i (inst ∷ insts) word =
    if bit_and word inst.mask == inst.signature then pos i else row_from (suc i) insts word

unfoldable pub row_of : ℕ → ℤ
unfolding row_from inst_table
row_of word = row_from 0 inst_table word

-- kInstructionLen, by the first byte.
unfoldable pub instruction_len : ℕ → ℕ
instruction_len byte = if byte % 4 == 0 then 2 else 4

-- The loop over the bytes of a section, on fuel. `none` is a read past the end of the data, or no
-- fuel left.
unfoldable pub scan : ℕ → List ℕ → Counter → Option Counter
unfolding increment row_of instruction_len
scan n [] counter = some counter
scan zero (b ∷ bs) counter = none
scan (suc n) (b0 ∷ b1 ∷ b2 ∷ b3 ∷ bs) counter =
    scan n (drop (instruction_len b0) (b0 ∷ b1 ∷ b2 ∷ b3 ∷ bs))
      (increment (row_of (of_le_bytes (b0 ∷ b1 ∷ b2 ∷ b3 ∷ []))) counter)
scan (suc n) (b ∷ bs) counter = none

unfoldable pub is_code : Section → Bool
is_code sec = sec.type == sht_progbits && nonzero (bit_and sec.flags shf_execinstr)

-- The body of the loop over the sections. Every round takes at least two bytes.
unfoldable pub scan_section : Section → Counter → Option Counter
unfolding is_code scan
scan_section sec counter =
    if is_code sec then scan (length sec.contents) sec.contents counter else some counter

unfoldable pub scan_sections : List Section → Counter → Option Counter
unfolding scan_section
scan_sections [] counter = some counter
scan_sections (sec ∷ secs) counter = elim (scan_section sec counter) [
  | none ↦ none
  | some counter1 ↦ scan_sections secs counter1
]

-- `inst_cnt`
unfoldable pub inst_cnt : ℕ → Counter → ℕ
inst_cnt n [] = n
inst_cnt n ((k, v) ∷ counter) = inst_cnt ((n + v) % 2 ^ 32) counter

-- A line of the histogram: its rank, the key that names the instruction, the frequency and the
-- length of the bar.
pub record Line : Type 0 where
  pub rank : ℕ
  pub key : ℤ
  pub count : ℕ
  pub bar : ℕ

-- The loop that prints, after `rank` lines, where the first line has `top` instructions.
unfoldable pub print_lines : ℕ → ℕ → Counter → List Line
print_lines rank top [] = []
print_lines rank top ((k, v) ∷ counter) =
    record { rank = (rank + 1) % 2 ^ 32; key = k; count = v; bar = v * (max_chars - 1) / top }
    ∷ print_lines ((rank + 1) % 2 ^ 32) top counter

unfoldable pub histogram : (Counter → Counter) → Counter → List Line
unfolding print_lines
histogram sort counter = elim (sort counter) [
  | [] ↦ []
  | ((k, v) ∷ rest) ↦ print_lines 0 v ((k, v) ∷ rest)
]

-- `main`, from the sections on: the number of instructions and the histogram.
unfoldable pub analyze : (Counter → Counter) → List Section → Option (ℕ × List Line)
unfolding scan_sections inst_cnt histogram
analyze sort secs = elim (scan_sections secs []) [
  | none ↦ none
  | some counter ↦ some (inst_cnt 0 counter, histogram sort counter)
]
