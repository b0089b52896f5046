-- ===== src/Device/Clint/Bytes.antt =====
-- The CLINT gives bytes, and its arrays keep their sizes.
use rv64_emulator.Common.{ℕ, suc, ◌+◌, ◌*◌, ◌≡◌, refl, ap, ◌∙◌, List, [], ◌∷◌, map, length}
use rv64_emulator.Common.{
  refused, length-replicate, le_bytes, bit_and, AllBytes, words_to_bytes-AllBytes,
  le_bytes-AllBytes, bytes_to_words, length-bytes_to_words,
}
use rv64_emulator.Device.Mmio.Laws.{
  HoldsBytes, Loaded, Stored, holds_bytes, loads_if, stores_if, copies_out, copies_in,
}
use rv64_emulator.Device.Clint.{
  Clint, new_clint, update_mtime, load, store, clint_device, in_area, msip_base, mtimecmp_base,
  mtime_base,
}

-- One register of each kind for each hart.
pub record IsWhole (harts : ℕ) (c : Clint) : Type 0 where
  pub msip_size : length c.msip ≡ harts
  pub mtimecmp_size : length c.mtimecmp ≡ harts

length-map : (f : ℕ → ℕ) (xs : List ℕ) → length (map f xs) ≡ length xs
length-map f [] = refl
length-map f (x ∷ xs) = ap suc (length-map f xs)

load-Loaded : (h : ℕ) (c : Clint) (addr n : ℕ) → IsWhole h c → Loaded (IsWhole h) n (load c addr n)
unfolding load
load-Loaded h c addr n v =
    loads_if (IsWhole h) n (in_area msip_base (msip_base + c.harts * 4) addr n) _ _
      (copies_out (IsWhole h) _ _ n c (words_to_bytes-AllBytes 4 c.msip) v)
      (loads_if (IsWhole h) n (in_area mtimecmp_base (mtimecmp_base + c.harts * 8) addr n) _ _
        (copies_out (IsWhole h) _ _ n c (words_to_bytes-AllBytes 8 c.mtimecmp) v)
        (loads_if (IsWhole h) n (in_area mtime_base (mtime_base + 8) addr n) _ refused
          (copies_out (IsWhole h) (le_bytes 8 c.mtime) _ n c (le_bytes-AllBytes 8 c.mtime) v) tt))

store-Stored :
    (h : ℕ) (c : Clint) (addr n : ℕ) (buf : List ℕ)
    → IsWhole h c
    → AllBytes buf
    → Stored (IsWhole h) (store c addr n buf)
unfolding store
store-Stored h c addr n buf v b =
    stores_if (IsWhole h) (in_area msip_base (msip_base + c.harts * 4) addr n) _ _
      (copies_in (IsWhole h) _ _ λ m. record {
        msip_size =
            length-map (λ w. bit_and w 1) (bytes_to_words 4 (length c.msip) m)
            ∙ (length-bytes_to_words 4 (length c.msip) m ∙ v.msip_size);
        mtimecmp_size = v.mtimecmp_size;
      })
      (stores_if (IsWhole h) (in_area mtimecmp_base (mtimecmp_base + c.harts * 8) addr n) _ _
        (copies_in (IsWhole h) _ _ λ m. record {
          msip_size = v.msip_size;
          mtimecmp_size = length-bytes_to_words 8 (length c.mtimecmp) m ∙ v.mtimecmp_size;
        })
        (stores_if (IsWhole h) (in_area mtime_base (mtime_base + 8) addr n) _ refused
          (copies_in (IsWhole h) _ _
            λ m. record { msip_size = v.msip_size; mtimecmp_size = v.mtimecmp_size })
          tt))

pub clint_device-HoldsBytes : (now h : ℕ) → HoldsBytes (clint_device now) (IsWhole h)
clint_device-HoldsBytes now h =
    holds_bytes (IsWhole h) (clint_device now) (load-Loaded h) (store-Stored h)

-- The CLINT, as it is made, and with a new time.
pub new_clint-IsWhole : (now h : ℕ) → IsWhole h (new_clint now h)
unfolding new_clint
new_clint-IsWhole now h = record {
  msip_size = length-replicate h 0;
  mtimecmp_size = length-replicate h 0;
}

pub update_mtime-IsWhole : (now h : ℕ) (c : Clint) → IsWhole h c → IsWhole h (update_mtime now c)
unfolding update_mtime
update_mtime-IsWhole now h c v = record { msip_size = v.msip_size; mtimecmp_size = v.mtimecmp_size }
