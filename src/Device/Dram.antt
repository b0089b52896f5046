-- ===== src/Device/Dram.antt =====
-- `class DRAM`: include/device/dram.h and src/device/dram.cc. Sums of addresses are taken modulo
-- 2 ^ 64.
pub mod Laws
pub mod Bytes
use rv64_emulator.Common.{
  ℕ, ◌+◌, ◌-◌, ◌++◌, done, fault, ◌%◌, ◌^◌, List, replicate, length, leb, if◌then◌else◌, Access,
}
use rv64_emulator.Common.{refused, or_fault, map_access, read_bytes, write_bytes}
use rv64_emulator.Device.Mmio.{MmioDevice}

pub record Dram : Type 0 where
  pub size : ℕ
  pub memory : List ℕ

-- DRAM::DRAM(mem_size)
unfoldable pub new_dram : ℕ → Dram
new_dram mem_size = record { size = mem_size; memory = replicate mem_size 0 }

-- DRAM::DRAM(mem_size, in_file), where the file has the given bytes. The read asks for the larger of
-- the two sizes and ends with the file, so a file larger than the memory is written past the vector.
unfoldable pub dram_of_file : ℕ → List ℕ → Access Dram
dram_of_file mem_size file =
    if leb (length file) mem_size
    then done (record { size = mem_size; memory = file ++ replicate (mem_size - length file) 0 })
    else fault

-- DRAM::GetSize
unfoldable pub get_size : Dram → ℕ
get_size d = d.size

-- DRAM::Load
unfoldable pub load : Dram → ℕ → ℕ → Access (List ℕ × Dram)
load d addr bytes =
    if leb ((addr + bytes) % 2 ^ 64) d.size
    then map_access (λ out. (out, d)) (or_fault (read_bytes d.memory addr bytes))
    else refused

-- DRAM::Store
unfoldable pub store : Dram → ℕ → ℕ → List ℕ → Access Dram
store d addr bytes buffer =
    if leb ((addr + bytes) % 2 ^ 64) d.size
    then map_access (λ m. record d { memory = m })
        (or_fault (write_bytes d.memory addr buffer bytes))
    else refused

-- DRAM::Reset
unfoldable pub reset : Dram → Dram
reset d = record d { memory = replicate (length d.memory) 0 }

abbrev pub dram_device : MmioDevice Dram
dram_device = record { load = load; store = store; reset = reset }
