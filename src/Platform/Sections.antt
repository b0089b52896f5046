-- ===== src/Platform/Sections.antt =====
-- CheckSectionExist of src/libs/utils.cc. What ELFIO makes of a file is a parameter: its sections,
-- the index of the section that holds their names, and the strings of that section.
use rv64_emulator.Common.{ℕ, ◌%◌, ◌^◌, Bool, true, false, ◌&&◌, ◌==◌, if◌then◌else◌}
use rv64_emulator.Common.{List, [], ◌∷◌, Option, none, some, length, take}

-- `ELFIO::section` as the program and the analyzer read it.
pub record Section : Type 0 where
  pub type : ℕ
  pub flags : ℕ
  pub name_offset : ℕ
  pub address : ℕ
  pub contents : List ℕ

-- What CheckSectionExist reads of `ELFIO::elfio`. `get_string` is that of the accessor over the
-- section of the names; `none` is a null pointer.
pub record SectionTable : Type 0 where
  pub name_str_index : ℕ
  pub sections : List Section
  pub get_string : ℕ → Option (List ℕ)

-- ELFIO::SHN_UNDEF, whose value the ELF format fixes.
abbrev pub shn_undef : ℕ
shn_undef = 0

-- The address of a section, no section of the name, or `strcmp` of a null pointer.
pub data Search : Type 0 where
  found : ℕ → Search
  absent null_name : Search

-- `strcmp(a, b) == 0`
unfoldable pub same_string : List ℕ → List ℕ → Bool
same_string [] [] = true
same_string [] (b ∷ bs) = false
same_string (a ∷ l) [] = false
same_string (a ∷ l) (b ∷ bs) = a == b && same_string l bs

-- The loop over the sections.
unfoldable pub find_section : (ℕ → Option (List ℕ)) → List ℕ → List Section → Search
unfolding same_string
find_section get_string name [] = absent
find_section get_string name (sec ∷ secs) = elim (get_string sec.name_offset) [
  | none ↦ null_name
  | some p ↦ if same_string p name then found sec.address else find_section get_string name secs
]

-- CheckSectionExist. The count of the sections is cut to 16 bits.
unfoldable pub check_section_exist : SectionTable → List ℕ → Search
unfolding find_section
check_section_exist reader name =
    if shn_undef == reader.name_str_index
    then absent
    else find_section reader.get_string name
        (take (length reader.sections % 2 ^ 16) reader.sections)
