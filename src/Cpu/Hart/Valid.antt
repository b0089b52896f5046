-- ===== src/Cpu/Hart/Valid.antt =====
-- What every step of a hart keeps: its registers are words, its control registers, its translation
-- buffer and what it reaches through the bus are valid.
use rv64_emulator.Common.{
  arith, ℕ, ◌^◌, ◌<◌, inl, inr, Bool-cases, ◌==◌, Option, none, some, List, AllBytes,
}
use rv64_emulator.Device.Mmio.{MmioDevice}
use rv64_emulator.Device.Mmio.Laws.{HoldsBytes}
use rv64_emulator.Cpu.Trap.{Trap}
use rv64_emulator.Cpu.Csr.State.{State}
use rv64_emulator.Cpu.Csr.Invariant.{new_state-IsValid}
use rv64_emulator.Cpu.Csr.Invariant
use rv64_emulator.Cpu.Mmu.Keeps.{
  BytesOf, GoodReply, ReplyKeeps, load-Keeps, store-Keeps, fetch-Keeps, flush_tlb-IsValid,
  new_sv39-IsValid,
}
use rv64_emulator.Cpu.Mmu.Keeps
use rv64_emulator.Cpu.Mmu.Sv39.{Sv39, new_sv39}
use rv64_emulator.Cpu.Mmu.Access.{Reply}
use rv64_emulator.Cpu.Hart.{AmoReservation, new_cpu, Cpu, set_xreg, load, store, fetch, flush_tlb}

module _ {B : Type 0} (P : B → Type 0) where
  pub record IsValid (c : Cpu B) : Type 0 where
    pub pc_word : c.pc < 2 ^ 64
    pub instret_word : c.instret < 2 ^ 64
    pub words : (r : ℕ) → c.xregs r < 2 ^ 64
    pub registers : Invariant.IsValid c.state
    pub unit : Keeps.IsValid P c.mmu

  -- The results that leave a valid hart, with a trap whose value is a word.
  abbrev pub KeepsValid : Option (Trap × Cpu B) → Type 0
  KeepsValid none = Unit {0}
  KeepsValid (some (t, c)) = (t.val < 2 ^ 64) × IsValid c

  -- The same for the reply of an access.
  abbrev pub AccessKeeps : {A : Type 0} → (A → Type 0) → Option (Reply A × Cpu B) → Type 0
  AccessKeeps Q none = Unit {0}
  AccessKeeps Q (some (r, c)) = GoodReply P Q r × IsValid c

  pub set_xreg-IsValid :
      (c : Cpu B) (rd val : ℕ) → IsValid c → val < 2 ^ 64 → IsValid (set_xreg c rd val)
  set_xreg-IsValid c rd val v h = record {
    pc_word = v.pc_word;
    instret_word = v.instret_word;
    words = λ r. elim (Bool-cases (rd == r)) [ inl e ↦ rw e h | inr e ↦ rw e (v.words r) ];
    registers = v.registers;
    unit = v.unit;
  }

  pub set_pc-IsValid :
      (c : Cpu B) (pc : ℕ) → IsValid c → pc < 2 ^ 64 → IsValid (record c { pc = pc })
  set_pc-IsValid c pc v h = record {
    pc_word = h;
    instret_word = v.instret_word;
    words = v.words;
    registers = v.registers;
    unit = v.unit;
  }

  pub set_state-IsValid :
      (c : Cpu B) (s : State) → IsValid c → Invariant.IsValid s → IsValid (record c { state = s })
  set_state-IsValid c s v h = record {
    pc_word = v.pc_word;
    instret_word = v.instret_word;
    words = v.words;
    registers = h;
    unit = v.unit;
  }

  pub set_mmu-IsValid :
      (c : Cpu B) (mmu : Sv39 B)
      → IsValid c
      → Keeps.IsValid P mmu
      → IsValid (record c { mmu = mmu })
  set_mmu-IsValid c mmu v h = record {
    pc_word = v.pc_word;
    instret_word = v.instret_word;
    words = v.words;
    registers = v.registers;
    unit = h;
  }

  pub flush_tlb-Keeps : (vaddr asid : ℕ) (c : Cpu B) → IsValid c → IsValid (flush_tlb vaddr asid c)
  unfolding flush_tlb
  flush_tlb-Keeps vaddr asid c v =
      set_mmu-IsValid c _ v (flush_tlb-IsValid P vaddr asid c.mmu v.unit)

  -- The hart as it is made.
  pub new_cpu-IsValid :
      (hart_id : ℕ) (reservation : AmoReservation) (bus : B)
      → hart_id < 2 ^ 64
      → P bus
      → IsValid (new_cpu hart_id reservation (new_sv39 bus))
  unfolding new_cpu
  new_cpu-IsValid hart_id reservation bus h p = record {
    pc_word = omega arith;
    instret_word = omega arith;
    words = λ r. ground arith;
    registers = new_state-IsValid;
    unit = new_sv39-IsValid P bus p;
  }

  -- A reply of the memory management unit, put into the hart.
  with_mmu :
      {A : Type 0} (Q : A → Type 0) (c : Cpu B) (r : Option (Reply A × Sv39 B))
      → IsValid c
      → ReplyKeeps P Q r
      → AccessKeeps Q (elim r [ none ↦ none | some (a, mmu) ↦ some (a, record c { mmu = mmu }) ])
  with_mmu Q c none v h = tt
  with_mmu Q c (some (a, mmu)) v h = (h.0, set_mmu-IsValid c mmu v h.1)

  module _ (m : MmioDevice B) (laws : HoldsBytes m P) (c : Cpu B) (addr n : ℕ) (v : IsValid c)
      (h : addr < 2 ^ 64) where
    pub load-AccessKeeps : AccessKeeps (BytesOf P n) (load m c addr n)
    unfolding load
    load-AccessKeeps =
        with_mmu (BytesOf P n) c _ v (load-Keeps P m laws c.priv_mode c.state c.mmu addr n h v.unit)

    pub store-AccessKeeps :
        (buf : List ℕ) → AllBytes buf → AccessKeeps (λ u. Unit {0}) (store m c addr n buf)
    unfolding store
    store-AccessKeeps buf b =
        with_mmu (λ u. Unit {0}) c _ v
          (store-Keeps P m laws c.priv_mode c.state c.mmu addr n h v.unit buf b)

    pub fetch-AccessKeeps : AccessKeeps (BytesOf P n) (fetch m c addr n)
    unfolding fetch
    fetch-AccessKeeps =
        with_mmu (BytesOf P n) c _ v
          (fetch-Keeps P m laws c.priv_mode c.state c.mmu addr n h v.unit)
