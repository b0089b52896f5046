-- ===== src/Device/Mmio/Laws.antt =====
-- What a client relies on of a device that holds bytes, and how a device shows it.
use mathlib.Core.Path.{subst}
use rv64_emulator.Common.{take, ℕ, List, length, ◌≡◌, refl, Bool, true, false, if◌then◌else◌}
use rv64_emulator.Common.{Access, done, refused, fault, map_access, or_fault, Option, none, some}
use rv64_emulator.Common.{AllBytes, read_bytes, read_bytes-AllBytes}
use rv64_emulator.Device.Mmio.{MmioDevice}

-- On states that satisfy `P`: a granted load gives as many bytes as it was asked for, and loads and
-- stores of bytes keep `P`.
pub record HoldsBytes {D : Type 0} (m : MmioDevice D) (P : D → Type 0) : Type 0 where
  pub load_law :
      (d : D) (addr n : ℕ) (out : List ℕ) (d' : D)
      → P d
      → m.load d addr n ≡ done (out, d')
      → AllBytes out × (length out ≡ n) × P d'
  pub store_law :
      (d : D) (addr n : ℕ) (buf : List ℕ) (d' : D)
      → P d
      → AllBytes buf
      → m.store d addr n buf ≡ done d'
      → P d'

module _ {D : Type 0} (P : D → Type 0) where
  -- The answers that the laws allow.
  abbrev pub Loaded : ℕ → Access (List ℕ × D) → Type 0
  Loaded n (done (out, d)) = AllBytes out × (length out ≡ n) × P d
  Loaded n refused = Unit {0}
  Loaded n fault = Unit {0}

  abbrev pub Stored : Access D → Type 0
  Stored (done d) = P d
  Stored refused = Unit {0}
  Stored fault = Unit {0}

  pub holds_bytes :
      (m : MmioDevice D)
      → ((d : D) (addr n : ℕ) → P d → Loaded n (m.load d addr n))
      → ((d : D) (addr n : ℕ) (buf : List ℕ) → P d → AllBytes buf → Stored (m.store d addr n buf))
      → HoldsBytes m P
  holds_bytes m loads stores = record {
    load_law = λ d addr n out d' h e. subst (Loaded n) e (loads d addr n h);
    store_law = λ d addr n buf d' h b e. subst Stored e (stores d addr n buf h b);
  }

  pub loads_if :
      (n : ℕ) (b : Bool) (x y : Access (List ℕ × D))
      → Loaded n x
      → Loaded n y
      → Loaded n (if b then x else y)
  loads_if n true x y h k = h
  loads_if n false x y h k = k

  pub stores_if : (b : Bool) (x y : Access D) → Stored x → Stored y → Stored (if b then x else y)
  stores_if true x y h k = h
  stores_if false x y h k = k

  -- A load that copies out of an array of bytes, and a store that fills one.
  pub copies_out :
      (m : List ℕ) (off n : ℕ) (d : D)
      → AllBytes m
      → P d
      → Loaded n (map_access (λ out. (out, d)) (or_fault (read_bytes m off n)))
  copies_out m off n d h p = copied (read_bytes m off n) (λ out e. read_bytes-AllBytes m off n h e)
    where
      copied :
          (o : Option (List ℕ))
          → ((out : List ℕ) → o ≡ some out → AllBytes out × (length out ≡ n))
          → Loaded n (map_access (λ out. (out, d)) (or_fault o))
      copied none k = tt
      copied (some out) k = ((k out refl).0, (k out refl).1, p)

  pub copies_in :
      (f : List ℕ → D) (o : Option (List ℕ))
      → ((m : List ℕ) → P (f m))
      → Stored (map_access f (or_fault o))
  copies_in f none h = tt
  copies_in f (some m) h = h m

-- On states that satisfy `P`, a load of the range that was just stored, at an address that `A` allows,
-- gives the stored bytes.
pub record Remembers {D : Type 0} (m : MmioDevice D) (P : D → Type 0) (A : ℕ → Type 0)
    : Type 0 where
  pub load_after_store :
      (d : D) (addr n : ℕ) (buf : List ℕ) (d' : D)
      → P d
      → A addr
      → m.store d addr n buf ≡ done d'
      → m.load d' addr n ≡ done (take n buf, d')
