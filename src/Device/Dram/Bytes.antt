-- ===== src/Device/Dram/Bytes.antt =====
-- The memory holds bytes.
use mathlib.Core.Path.{subst}
use rv64_emulator.Common.{
  Bool, true, false, ◌-◌, ◌++◌, leb, replicate, fault, if◌then◌else◌, AllBytes-append,
}
use rv64_emulator.Common.{ℕ, ◌≡◌, arith, inl, inr, Option-cases, List, length, done}
use rv64_emulator.Common.{
  AllBytes, read_bytes, write_bytes, read_bytes-AllBytes, write_bytes-AllBytes, replicate-AllBytes,
}
use rv64_emulator.Device.Mmio.Laws.{HoldsBytes}
use rv64_emulator.Device.Dram.{Dram, new_dram, dram_of_file, load, store, dram_device}

abbrev pub OfBytes : Dram → Type 0
OfBytes d = AllBytes d.memory

pub new_dram-OfBytes : (n : ℕ) → OfBytes (new_dram n)
unfolding new_dram
new_dram-OfBytes n = replicate-AllBytes n

-- A memory that a file of bytes fills.
pub dram_of_file-OfBytes :
    (n : ℕ) (file : List ℕ) {d : Dram} → AllBytes file → dram_of_file n file ≡ done d → OfBytes d
unfolding dram_of_file
dram_of_file-OfBytes n file {d} h e = filled (leb (length file) n) e
  where
    done_injective : {a b : Dram} → done a ≡ done b → a ≡ b
    done_injective e = cc

    filled :
        (b : Bool)
        → (if b
            then done (record { size = n; memory = file ++ replicate (n - length file) 0 })
            else fault)
          ≡ done d
        → OfBytes d
    filled true e =
        subst OfBytes (done_injective e)
          (AllBytes-append file _ h (replicate-AllBytes (n - length file)))
    filled false e = cc

load-OfBytes :
    (d : Dram) (addr n : ℕ) (out : List ℕ) (d' : Dram)
    → OfBytes d
    → load d addr n ≡ done (out, d')
    → AllBytes out × (length out ≡ n) × OfBytes d'
unfolding load
load-OfBytes d addr n out d' h e = elim (Option-cases (read_bytes d.memory addr n)) [
  | inl bad ↦ ground arith
  | inr (out', ok) ↦ ground (arith, read_bytes-AllBytes d.memory addr n h ok)
]

store-OfBytes :
    (d : Dram) (addr n : ℕ) (buf : List ℕ) (d' : Dram)
    → OfBytes d
    → AllBytes buf
    → store d addr n buf ≡ done d'
    → OfBytes d'
unfolding store
store-OfBytes d addr n buf d' h k e = elim (Option-cases (write_bytes d.memory addr buf n)) [
  | inl bad ↦ ground arith
  | inr (m, ok) ↦ ground (arith, write_bytes-AllBytes d.memory addr buf n h k ok)
]

pub dram_device-HoldsBytes : HoldsBytes dram_device OfBytes
dram_device-HoldsBytes = record { load_law = load-OfBytes; store_law = store-OfBytes }
