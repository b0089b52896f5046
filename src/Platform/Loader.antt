-- ===== src/Platform/Loader.antt =====
-- LoadElf. What ELFIO makes of a file is a parameter: whether it is valid, and its segments.
use rv64_emulator.Common.{ℕ, zero, suc, ◌+◌, ◌%◌, ◌^◌, Bool, ltb, ◌==◌, not, if◌then◌else◌}
use rv64_emulator.Common.{List, [], ◌∷◌, Option, none, some, get_elem?, length, take}
use rv64_emulator.Device.Mmio.{MmioDevice}
use rv64_emulator.Cpu.Hart.{Cpu}
use rv64_emulator.Cpu.Hart

-- `ELFIO::segment` as the loader reads it.
pub record Segment : Type 0 where
  pub type : ℕ
  pub file_size : ℕ
  pub memory_size : ℕ
  pub virtual_address : ℕ
  pub contents : List ℕ

-- ELFIO::PT_LOAD, whose value the ELF format fixes.
abbrev pub pt_load : ℕ
pt_load = 1

-- What the loader reads of `ELFIO::elfio`: whether `validate` finds no error, and the segments.
pub record Elf : Type 0 where
  pub valid : Bool
  pub segments : List Segment

-- LoadElf returns, leaves the program, or reads past the data of a segment.
pub data Loaded (A : Type 0) : Type 0 where
  loaded : A → Loaded A
  exits : Loaded A
  out_of_data : Loaded A

-- `kVal`, for the byte at offset `k`; `none` is a read past the data.
unfoldable pub segment_byte : Segment → ℕ → Option ℕ
segment_byte seg k =
    if ltb ((seg.virtual_address + k) % 2 ^ 64) ((seg.virtual_address + seg.file_size) % 2 ^ 64)
    then get_elem? seg.contents k
    else some 0

module _ {B : Type 0} (m : MmioDevice B) where
  -- The inner loop, from offset `k` with `n` bytes to go. The trap of a store is dropped; `none` is
  -- also undefined behaviour of a device.
  unfoldable pub load_bytes : Segment → ℕ → ℕ → Cpu B → Option (Cpu B)
  unfolding segment_byte
  load_bytes seg k zero c = some c
  load_bytes seg k (suc n) c = elim (segment_byte seg k) [
    | none ↦ none
    | some v ↦ elim (Hart.store m c ((seg.virtual_address + k) % 2 ^ 64) 1 (v ∷ [])) [
      | none ↦ none
      | some (r, c1) ↦ load_bytes seg (suc k) n c1
    ]
  ]

  -- The body of the outer loop. A segment whose end wraps past 2 ^ 64 has no round of the inner one.
  unfoldable pub load_segment : Segment → Cpu B → Option (Cpu B)
  unfolding load_bytes
  load_segment seg c =
      if not (seg.type == pt_load)
      then some c
      else if ltb seg.virtual_address ((seg.virtual_address + seg.memory_size) % 2 ^ 64)
      then load_bytes seg 0 seg.memory_size c
      else some c

  -- The outer loop.
  unfoldable pub load_segments : List Segment → Cpu B → Option (Cpu B)
  unfolding load_segment
  load_segments [] c = some c
  load_segments (seg ∷ segs) c = elim (load_segment seg c) [
    | none ↦ none
    | some c1 ↦ load_segments segs c1
  ]

  -- The count of the segments is cut to 16 bits.
  unfoldable pub load_elf : Elf → Cpu B → Loaded (Cpu B)
  unfolding load_segments
  load_elf reader c =
      if not reader.valid
      then exits
      else elim (load_segments (take (length reader.segments % 2 ^ 16) reader.segments) c) [
        | none ↦ out_of_data
        | some c1 ↦ loaded c1
      ]
