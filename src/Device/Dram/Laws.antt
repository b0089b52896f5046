-- ===== src/Device/Dram/Laws.antt =====
-- Memory holds what was last stored, byte for byte.
use rv64_emulator.Common.{ℕ, ◌+◌, ◌^◌, ◌<◌, ◌≤◌, ◌≡◌, arith, ◌⊎◌, inl, inr}
use rv64_emulator.Common.{List, length, done, refused, fault, take, length-replicate}
use rv64_emulator.Common.{leb, write_bytes, Option-cases}
use rv64_emulator.Common.{read_bytes-write_bytes_same, read_bytes-write_bytes_apart}
use rv64_emulator.Common.{drop, map_access, length-write_bytes, if◌then◌else◌}
use rv64_emulator.Device.Mmio.Laws.{Remembers}
use rv64_emulator.Device.Dram.{Dram, dram_device, new_dram, load, store, reset}

-- The vector has the size that the guards test.
pub record IsValid (d : Dram) : Type 0 where
  pub whole : length d.memory ≡ d.size
  pub word : d.size < 2 ^ 64

pub new_dram-IsValid : (n : ℕ) → n < 2 ^ 64 → IsValid (new_dram n)
unfolding new_dram
new_dram-IsValid n h = record { whole = length-replicate n 0; word = h }

store-IsValid :
    (d : Dram) (addr bytes : ℕ) (buf : List ℕ) {d' : Dram}
    → IsValid d
    → store d addr bytes buf ≡ done d'
    → IsValid d' × (d'.size ≡ d.size)
unfolding store
store-IsValid d addr bytes buf v e = elim (Option-cases (write_bytes d.memory addr buf bytes)) [
  | inl bad ↦ ground arith
  | inr (m, ok) ↦ ground (arith, length-write_bytes d.memory addr buf bytes ok)
]

pub reset-IsValid : (d : Dram) → IsValid d → IsValid (reset d)
unfolding reset
reset-IsValid d v = ground (arith, length-replicate {0} {A = ℕ} (length d.memory) 0)

-- An access whose end does not wrap is granted exactly when it ends within the memory, and never
-- reads or writes outside the vector.
pub load_in_range :
    (d : Dram) (addr bytes : ℕ)
    → IsValid d
    → addr + bytes < 2 ^ 64
    → load d addr bytes
      ≡ (if leb (addr + bytes) d.size then done (take bytes (drop addr d.memory), d) else refused)
unfolding load
load_in_range d addr bytes v h = ground arith

-- A load of the range that was just stored gives the stored bytes.
pub load-store_same :
    (d : Dram) (addr bytes : ℕ) (buf : List ℕ) {d' : Dram}
    → IsValid d
    → store d addr bytes buf ≡ done d'
    → load d' addr bytes ≡ done (take bytes buf, d')
unfolding load store
load-store_same d addr bytes buf v e = elim (Option-cases (write_bytes d.memory addr buf bytes)) [
  | inl bad ↦ ground arith
  | inr (m, ok) ↦ ground (
    arith,
    read_bytes-write_bytes_same d.memory addr buf bytes ok,
    length-write_bytes d.memory addr buf bytes ok,
  )
]

-- A load of a range apart from the one that was stored gives what it gave before.
pub load-store_apart :
    (d : Dram) (addr bytes : ℕ) (buf : List ℕ) (addr' bytes' : ℕ) {d' : Dram}
    → IsValid d
    → store d addr bytes buf ≡ done d'
    → (addr' + bytes' ≤ addr) ⊎ (addr + bytes ≤ addr')
    → map_access (λ r. r.0) (load d' addr' bytes') ≡ map_access (λ r. r.0) (load d addr' bytes')
unfolding load store
load-store_apart d addr bytes buf addr' bytes' v e apart =
    elim (Option-cases (write_bytes d.memory addr buf bytes)) [
      | inl bad ↦ ground arith
      | inr (m, ok) ↦ ground (
        arith,
        read_bytes-write_bytes_apart d.memory addr buf bytes addr' bytes' ok apart,
        length-write_bytes d.memory addr buf bytes ok,
      )
    ]

-- The guard adds on 64 bits: where the end of an access wraps to a small number, it passes, and
-- the copy leaves the vector.
load_wrapped :
    (d : Dram) (addr bytes : ℕ)
    → IsValid d
    → addr < 2 ^ 64
    → bytes < 2 ^ 64
    → 2 ^ 64 ≤ addr + bytes
    → addr + bytes ≤ d.size + 2 ^ 64
    → load d addr bytes ≡ fault
unfolding load
load_wrapped d addr bytes v ha hb wraps small = ground arith

-- The memory by itself, at every address.
dram_device-Remembers : Remembers dram_device IsValid (λ addr. Unit {0})
dram_device-Remembers = record {
  load_after_store = λ d addr n buf d' v a e. load-store_same d addr n buf v e;
}
