-- ===== src/Device/Clint.antt =====
-- `class Clint`: include/device/clint.h and src/device/clint.cc. The guest's time stamp, which the
-- host's counter gives, is an argument. Offsets and sums are taken modulo 2 ^ 64.
pub mod Bytes
use rv64_emulator.Common.{
  ℕ, ◌+◌, ◌-◌, ◌*◌, ◌%◌, ◌^◌, List, map, replicate, length, Option, some, none,
}
use rv64_emulator.Common.{Bool, ◌&&◌, leb, ltb, ◌==◌, if◌then◌else◌, bit_and, get_elem?}
use rv64_emulator.Common.{Access, refused, or_fault, map_access}
use rv64_emulator.Common.{
  read_bytes, write_bytes, le_bytes, of_le_bytes, words_to_bytes, bytes_to_words,
}
use rv64_emulator.Device.Mmio.{MmioDevice}

pub record Clint : Type 0 where
  pub harts : ℕ
  pub mtime : ℕ
  pub mtimecmp : List ℕ
  pub msip : List ℕ

abbrev pub msip_base : ℕ
msip_base = 0

abbrev pub mtimecmp_base : ℕ
mtimecmp_base = 0x4000

abbrev pub mtime_base : ℕ
mtime_base = 0xbff8

-- Clint::Clint
unfoldable pub new_clint : ℕ → ℕ → Clint
new_clint now harts = record {
  harts = harts;
  mtime = now;
  mtimecmp = replicate harts 0;
  msip = replicate harts 0;
}

-- `addr + bytes`
abbrev pub end_of : ℕ → ℕ → ℕ
end_of addr bytes = (addr + bytes) % 2 ^ 64

-- The guard of a register area: `base <= addr && addr + bytes <= limit`.
abbrev pub in_area : ℕ → ℕ → ℕ → ℕ → Bool
in_area base limit addr bytes = leb base addr && leb (end_of addr bytes) (limit % 2 ^ 64)

-- Clint::Load
unfoldable pub load : Clint → ℕ → ℕ → Access (List ℕ × Clint)
load c addr bytes =
    if in_area msip_base (msip_base + c.harts * 4) addr bytes
    then reply (read_bytes (words_to_bytes 4 c.msip) (addr - msip_base) bytes)
    else if in_area mtimecmp_base (mtimecmp_base + c.harts * 8) addr bytes
    then reply (read_bytes (words_to_bytes 8 c.mtimecmp) (addr - mtimecmp_base) bytes)
    else if in_area mtime_base (mtime_base + 8) addr bytes
    then reply (read_bytes (le_bytes 8 c.mtime) (addr - mtime_base) bytes)
    else refused
  where
    reply : Option (List ℕ) → Access (List ℕ × Clint)
    reply o = map_access (λ out. (out, c)) (or_fault o)

-- Clint::Store. A write to the software-interrupt area leaves bit 0 of each word.
unfoldable pub store : Clint → ℕ → ℕ → List ℕ → Access Clint
store c addr bytes buffer =
    if in_area msip_base (msip_base + c.harts * 4) addr bytes
    then map_access
        (λ m. record c { msip = map (λ w. bit_and w 1) (bytes_to_words 4 (length c.msip) m) })
        (or_fault (write_bytes (words_to_bytes 4 c.msip) (addr - msip_base) buffer bytes))
    else if in_area mtimecmp_base (mtimecmp_base + c.harts * 8) addr bytes
    then map_access (λ m. record c { mtimecmp = bytes_to_words 8 (length c.mtimecmp) m })
        (or_fault (write_bytes (words_to_bytes 8 c.mtimecmp) (addr - mtimecmp_base) buffer bytes))
    else if in_area mtime_base (mtime_base + 8) addr bytes
    then map_access (λ m. record c { mtime = of_le_bytes m })
        (or_fault (write_bytes (le_bytes 8 c.mtime) (addr - mtime_base) buffer bytes))
    else refused

-- Clint::Reset
unfoldable pub reset : ℕ → Clint → Clint
reset now c = record c {
  mtime = now;
  mtimecmp = replicate (length c.mtimecmp) 0;
  msip = replicate (length c.msip) 0;
}

-- Clint::MachineTimerIrq; `none` is an index outside the vector.
unfoldable pub machine_timer_irq : Clint → ℕ → Option Bool
machine_timer_irq c hart_id = elim (get_elem? c.mtimecmp hart_id) [
  | none ↦ none
  | some cmp ↦ some (ltb cmp c.mtime)
]

-- Clint::MachineSoftwareIrq
unfoldable pub machine_software_irq : Clint → ℕ → Option Bool
machine_software_irq c hart_id = elim (get_elem? c.msip hart_id) [
  | none ↦ none
  | some w ↦ some (bit_and w 1 == 1)
]

-- Clint::Tick
unfoldable pub tick : Clint → Clint
tick c = record c { mtime = (c.mtime + 1) % 2 ^ 64 }

-- Clint::UpdateMtime
unfoldable pub update_mtime : ℕ → Clint → Clint
update_mtime now c = record c { mtime = now }

-- The device on the bus, with the time stamp that a reset reads.
abbrev pub clint_device : ℕ → MmioDevice Clint
clint_device now = record { load = load; store = store; reset = reset now }
