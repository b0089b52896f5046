-- ===== src/Cpu/Executor/Reload.antt =====
-- A store and then a load of the same address.
use mathlib.Core.Path.{subst}
use native.Mathlib.Nat.{pow-succ', div-div-eq-div-mul, div-add-mod'}
use rv64_emulator.Common.{
  ℕ, zero, suc, ◌+◌, ◌*◌, ◌/◌, ◌%◌, ◌^◌, ◌≤◌, ◌≡◌, refl, sym, ap, ap₂, ◌∙◌, arith, inl, inr, true,
}
use rv64_emulator.Common.{List, take, le_bytes, of_le_bytes, Option, none, some, Access-cases, done}
use rv64_emulator.Words.{add_wrap, sext}
use rv64_emulator.Device.Mmio.{MmioDevice}
use rv64_emulator.Device.Mmio.Laws.{Remembers}
use rv64_emulator.Cpu.Trap.{Trap, none_trap, store_access_fault}
use rv64_emulator.Cpu.Csr.Addr.{csr_satp, csr_mstatus}
use rv64_emulator.Cpu.Csr.State.{read}
use rv64_emulator.Cpu.Mmu.Access.{use_phys_addr}
use rv64_emulator.Cpu.Mmu.Access
use rv64_emulator.Cpu.Decode.Info.{DecodeInfo}
use rv64_emulator.Cpu.Hart.{Cpu, set_xreg}
use rv64_emulator.Cpu.Hart
use rv64_emulator.Cpu.Executor.Value.{value, write_value}
use rv64_emulator.Bits.Digit.{bit}
use rv64_emulator.Cpu.Executor.Loads.{
  LoadKind, token_of, width_of, is_signed, extended_bit, load_value_bits, width_of-le,
}
use rv64_emulator.Cpu.Executor.Memory.{load_value, load_type_exec, store_type_exec, target_addr}

mod-byte : (v n : ℕ) → v % 256 ^ suc n ≡ v % 256 + 256 * (v / 256 % 256 ^ n)
mod-byte v n = omega (
  arith,
  div-add-mod' v (256 ^ suc n),
  div-add-mod' (v / 256) (256 ^ n),
  ap (λ (t : ℕ). t * 256 ^ suc n) (over v n),
  ap (λ (t : ℕ). v / 256 / 256 ^ n * t) (pow-succ' 256 n),
)
  where
    over : (v n : ℕ) → v / 256 ^ suc n ≡ v / 256 / 256 ^ n
    over v n = rw (pow-succ' 256 n) (sym (div-div-eq-div-mul v 256 (256 ^ n)))

-- The first bytes of a word.
of_le_bytes-take : (k n v : ℕ) → n ≤ k → of_le_bytes (take n (le_bytes k v)) ≡ v % 256 ^ n
of_le_bytes-take k zero v h = omega arith
of_le_bytes-take zero (suc n) v h = absurd (omega arith)
of_le_bytes-take (suc k) (suc n) v h =
    omega (arith, of_le_bytes-take k n (v / 256) (omega arith), mod-byte v n)

-- The hart accesses memory without translation.
abbrev pub IsPhysical : {B : Type 0} → Cpu B → Type 0
IsPhysical c = use_phys_addr c.priv_mode (read c.state csr_satp) (read c.state csr_mstatus) ≡ true

same_hart :
    {C : Type 0} {t t' : Trap} {a b : C}
    → ◌≡◌ {A = Option (Trap × C)} (some (t, a)) (some (t', b))
    → a ≡ b
same_hart e = cc

not_fault :
    {C : Type 0} {val : ℕ} {a b : C}
    → ◌≡◌ {A = Option (Trap × C)}
        (some (record { type = store_access_fault; val = val }, a))
        (some (none_trap, b))
    → ⊥
not_fault e = cc

module _ {B : Type 0} (P : B → Type 0) (A : ℕ → Type 0) (m : MmioDevice B) where
  abbrev with_bus : Cpu B → B → Cpu B
  with_bus c bus = record c { mmu = record (c.mmu) { bus = bus } }

  -- What a granted store did.
  granted_store :
      (c c1 : Cpu B) (info : DecodeInfo)
      → IsPhysical c
      → store_type_exec m c info ≡ some (none_trap, c1)
      → (bus : B) × (m.store c.mmu.bus
            (target_addr m c info)
            info.mem_size
            (le_bytes 8 (c.xregs info.rs2))
          ≡ done bus)
        × (with_bus c bus ≡ c1)
  unfolding store_type_exec Hart.store Access.store Access.store_phys
  granted_store c c1 info phys e =
      elim (Access-cases
        (m.store c.mmu.bus (target_addr m c info) info.mem_size (le_bytes 8 (c.xregs info.rs2)))) [
          | inl (bus, f) ↦
              let is : store_type_exec m c info ≡ some (none_trap, with_bus c bus) =
                rw (store_type_exec, Hart.store, Access.store, phys, Access.store_phys, f) refl in
              (bus, f, same_hart (sym is ∙ e))
          | inr (inl f) ↦
              let is : store_type_exec m c info
                  ≡ some (record { type = store_access_fault; val = target_addr m c info }, c) =
                rw (store_type_exec, Hart.store, Access.store, phys, Access.store_phys, f) refl in
              absurd (not_fault (sym is ∙ e))
          | inr (inr f) ↦
              let is : store_type_exec m c info ≡ none =
                rw (store_type_exec, Hart.store, Access.store, phys, Access.store_phys, f) refl in
              cc
        ]

  -- A load of bytes that the bus gives.
  granted_load :
      (c : Cpu B) (info : DecodeInfo) (out : List ℕ)
      → IsPhysical c
      → m.load c.mmu.bus (target_addr m c info) info.mem_size ≡ done (out, c.mmu.bus)
      → load_type_exec m c info ≡ write_value c info (load_value info.token (of_le_bytes out))
  unfolding load_type_exec Hart.load Access.load Access.load_phys
  granted_load c info out phys e =
      rw (load_type_exec, Hart.load, Access.load, phys, Access.load_phys, e) refl

-- The word that a load finds is the low bytes of the stored register.
loaded_value :
    {B : Type 0} (P : B → Type 0) (A : ℕ → Type 0) (m : MmioDevice B) (c c1 : Cpu B)
    (stores loads : DecodeInfo)
    → Remembers m P A
    → IsPhysical c
    → P c.mmu.bus
    → A (target_addr m c stores)
    → loads.rs1 ≡ stores.rs1
    → loads.imm ≡ stores.imm
    → loads.mem_size ≡ stores.mem_size
    → stores.mem_size ≤ 8
    → store_type_exec m c stores ≡ some (none_trap, c1)
    → load_type_exec m c1 loads
      ≡ write_value c1 loads (load_value loads.token (c.xregs stores.rs2 % 256 ^ stores.mem_size))
loaded_value {B} P A m c c1 stores loads laws phys p a rs1 imm size small e =
    let (bus, f, same) = granted_store P A m c c1 stores phys e in
    let c' : Cpu B = with_bus P A m c bus in
    let addr : target_addr m c' loads ≡ target_addr m c stores =
      ap₂ (λ r i. add_wrap 64 (c.xregs r) (sext 32 i)) rs1 imm in
    let out : List ℕ = take stores.mem_size (le_bytes 8 (c.xregs stores.rs2)) in
    let again : m.load bus (target_addr m c' loads) loads.mem_size ≡ done (out, bus) =
      ap₂ (m.load bus) addr size ∙ laws.load_after_store c.mmu.bus _ _ _ bus p a f in
    subst
      (λ x.
        load_type_exec m x loads
        ≡ write_value x loads (load_value loads.token (c.xregs stores.rs2 % 256 ^ stores.mem_size)))
      same
      (granted_load P A m c' loads out phys again
        ∙ ap (λ v. write_value c' loads (load_value loads.token v))
            (of_le_bytes-take 8 stores.mem_size (c.xregs stores.rs2) small))

-- Without translation, a load at the address of a store that was granted just before, with the same
-- width, puts the low bytes of the stored register in rd, each bit in its place, with the sign or
-- zeros above as the load is signed or unsigned, and changes nothing else; the devices must remember
-- what is stored.
pub load_type_exec-store_type_exec :
    {B : Type 0} (P : B → Type 0) (A : ℕ → Type 0) (m : MmioDevice B) (c c1 : Cpu B)
    (stores loads : DecodeInfo) (l : LoadKind)
    → Remembers m P A
    → IsPhysical c
    → P c.mmu.bus
    → A (target_addr m c stores)
    → loads.rs1 ≡ stores.rs1
    → loads.imm ≡ stores.imm
    → loads.token ≡ token_of l
    → loads.mem_size ≡ width_of l
    → stores.mem_size ≡ width_of l
    → store_type_exec m c stores ≡ some (none_trap, c1)
    → (x : ℕ) × (load_type_exec m c1 loads ≡ some (none_trap, set_xreg c1 loads.rd x))
      × ((i : ℕ) → bit x i ≡ extended_bit (is_signed l) (width_of l) (c.xregs stores.rs2) i)
unfolding write_value
load_type_exec-store_type_exec P A m c c1 stores loads l laws phys p a rs1 imm token loaded stored
      e =
    let (x, gives, bits) = load_value_bits l (c.xregs stores.rs2) in
    let small : stores.mem_size ≤ 8 = omega (arith, stored, width_of-le l) in
    let found : load_value loads.token (c.xregs stores.rs2 % 256 ^ stores.mem_size) ≡ value x =
      ap₂ (λ t n. load_value t (c.xregs stores.rs2 % 256 ^ n)) token stored ∙ gives in
    (
      x,
      loaded_value P A m c c1 stores loads laws phys p a rs1 imm (loaded ∙ sym stored) small e
          ∙ ap (write_value c1 loads) found,
      bits,
    )
