-- ===== src/Cpu/Executor/Reserve.antt =====
-- SC after LR.
use rv64_emulator.Common.{
  ℕ, ◌⊎◌, Option-cases, ==_iff, ◌%◌, ◌≡◌, ◌≢◌, refl, sym, ap, ◌∙◌, arith, inl, inr, true, false,
  ◌==◌, Option, none, some, List, le_bytes, of_le_bytes, Bool-cases,
}
use rv64_emulator.Device.Mmio.{MmioDevice}
use rv64_emulator.Cpu.Trap.{Trap, none_trap, load_address_misaligned}
use rv64_emulator.Cpu.Mmu.Access.{Reply, ok, trapped}
use rv64_emulator.Cpu.Mmu.Access
use rv64_emulator.Cpu.Mmu.Sv39.{Sv39}
use rv64_emulator.Cpu.Csr.State.{update}
use mathlib.Core.Path.{subst}
use rv64_emulator.Cpu.Decode.Info.{DecodeInfo}
use rv64_emulator.Cpu.Hart.{AmoReservation, Cpu, set_xreg}
use rv64_emulator.Cpu.Hart
use rv64_emulator.Cpu.Executor.Value.{ill_trap}
use rv64_emulator.Cpu.Executor.Atomic.{amo_lr_exec, amo_sc_exec, lr_value, reservation_matches}

same_result :
    {C : Type 0} {t t' : Trap} {a b : C}
    → ◌≡◌ {A = Option (Trap × C)} (some (t, a)) (some (t', b))
    → a ≡ b
same_result e = cc

not_none_misaligned :
    {C : Type 0} {val : ℕ} {a b : C}
    → ◌≡◌ {A = Option (Trap × C)}
        (some (record { type = load_address_misaligned; val = val }, a))
        (some (none_trap, b))
    → ⊥
not_none_misaligned e = cc

not_none_illegal :
    {C : Type 0} {val : ℕ} {a b : C}
    → ◌≡◌ {A = Option (Trap × C)} (some (ill_trap val, a)) (some (none_trap, b))
    → ⊥
not_none_illegal e = cc

-- The hart holds a reservation.
record Reserves {B : Type 0} (c : Cpu B) (addr size : ℕ) : Type 0 where
  pub at_addr : c.reservation.addr ≡ addr
  pub of_size : c.reservation.size ≡ size
  pub is_valid : c.reservation.valid ≡ 1
  pub by_hart : c.reservation.hart_id ≡ c.hart_id

module _ {B : Type 0} (m : MmioDevice B) where
  abbrev with_mmu : Cpu B → Sv39 B → Cpu B
  with_mmu c mmu = record c { mmu = mmu }

  -- An access of the hart changes the memory management unit alone.
  load_frame :
      (c : Cpu B) (addr n : ℕ)
      → (Hart.load m c addr n ≡ none)
        ⊎ ((r : Reply (List ℕ)) × (mmu : Sv39 B) × (Hart.load m c addr n
              ≡ some (r, with_mmu c mmu)))
  unfolding Hart.load
  load_frame c addr n = elim (Option-cases (Access.load m c.priv_mode c.state c.mmu addr n)) [
    | inl e ↦ inl (rw (Hart.load, e) refl)
    | inr ((r, mmu), e) ↦ inr (r, mmu, rw (Hart.load, e) refl)
  ]

  store_frame :
      (c : Cpu B) (addr n : ℕ) (buf : List ℕ)
      → (Hart.store m c addr n buf ≡ none)
        ⊎ ((r : Reply (Unit {0})) × (mmu : Sv39 B) × (Hart.store m c addr n buf
              ≡ some (r, with_mmu c mmu)))
  unfolding Hart.store
  store_frame c addr n buf =
      elim (Option-cases (Access.store m c.priv_mode c.state c.mmu addr n buf)) [
        | inl e ↦ inl (rw (Hart.store, e) refl)
        | inr ((r, mmu), e) ↦ inr (r, mmu, rw (Hart.store, e) refl)
      ]

  -- The reservation that LR makes.
  abbrev reserve : Cpu B → DecodeInfo → Cpu B
  reserve c info = record c {
    reservation = record {
      addr = c.xregs info.rs1;
      size = info.mem_size;
      valid = 1;
      hart_id = c.hart_id;
    };
  }

  -- LR that raises no trap.
  lr_reserves :
      (c c1 : Cpu B) (info : DecodeInfo)
      → amo_lr_exec m c info ≡ some (none_trap, c1)
      → (c.xregs info.rs1 % info.mem_size ≡ 0)
        × ((mmu : Sv39 B) × (x : ℕ) × ((set_xreg (with_mmu (reserve c info) mmu) info.rd x ≡ c1)
              ⊎ (with_mmu (reserve c info) mmu ≡ c1)))
  unfolding amo_lr_exec
  lr_reserves c c1 info e = elim (Bool-cases (c.xregs info.rs2 == 0)) [
    | inl zero ↦ elim (Bool-cases (c.xregs info.rs1 % info.mem_size == 0)) [
      | inl even ↦ elim (load_frame (reserve c info) (c.xregs info.rs1) info.mem_size) [
        | inl f ↦ let is : amo_lr_exec m c info ≡ none = rw (amo_lr_exec, zero, even, f) refl in cc
        | inr (ok bytes, mmu, f) ↦
            let is : amo_lr_exec m c info
                ≡ some (
                  none_trap,
                  set_xreg (with_mmu (reserve c info) mmu) info.rd
                      (lr_value info.token (of_le_bytes bytes)),
                ) =
              rw (amo_lr_exec, zero, even, f) refl in
            ((==_iff _ _).0 even, (mmu, _, inl (same_result (sym is ∙ e))))
        | inr (trapped t, mmu, f) ↦
            let is : amo_lr_exec m c info ≡ some (t, with_mmu (reserve c info) mmu) =
              rw (amo_lr_exec, zero, even, f) refl in
            ((==_iff _ _).0 even, (mmu, 0, inr (same_result (sym is ∙ e))))
      ]
      | inr odd ↦
          let is : amo_lr_exec m c info
              ≡ some (record { type = load_address_misaligned; val = info.pc }, c) =
            rw (amo_lr_exec, zero, odd) refl in
          absurd (not_none_misaligned (sym is ∙ e))
    ]
    | inr nonzero ↦
        let is : amo_lr_exec m c info ≡ some (ill_trap info.word, c) =
          rw (amo_lr_exec, nonzero) refl in
        absurd (not_none_illegal (sym is ∙ e))
  ]

  -- SC that finds its reservation: it is given up, and the store decides.
  abbrev given_up : Cpu B → Cpu B
  given_up c = record c { reservation = record (c.reservation) { valid = 0 } }

  abbrev pub sc_store : Cpu B → DecodeInfo → Option (Trap × Cpu B)
  sc_store c info =
      elim (Hart.store m (given_up c) (c.xregs info.rs1) info.mem_size
        (le_bytes 8 (c.xregs info.rs2))) [
          | none ↦ none
          | some (trapped t, c1) ↦ some (t, c1)
          | some (ok u, c1) ↦ some (none_trap, set_xreg c1 info.rd 0)
        ]

  sc_succeeds :
      (c : Cpu B) (info : DecodeInfo)
      → c.xregs info.rs1 % info.mem_size ≡ 0
      → Reserves c (c.xregs info.rs1) info.mem_size
      → amo_sc_exec m c info ≡ sc_store c info
  unfolding amo_sc_exec reservation_matches
  sc_succeeds c info even r = rw (amo_sc_exec, (==_iff _ _).1 even, yes) refl
    where
      yes : reservation_matches c.reservation (c.xregs info.rs1) info.mem_size c.hart_id ≡ true
      yes = ground (arith, r.at_addr, r.of_size, r.is_valid, r.by_hart)

  sc_fails :
      (c : Cpu B) (info : DecodeInfo)
      → c.xregs info.rs1 % info.mem_size ≡ 0
      → c.reservation.valid ≡ 0
      → amo_sc_exec m c info ≡ some (none_trap, set_xreg c info.rd 1)
  unfolding amo_sc_exec reservation_matches
  sc_fails c info even r = elim (Bool-cases (c.reservation.hart_id == c.hart_id)) [
    | inl e ↦
        rw (amo_sc_exec, (==_iff _ _).1 even, no, e)
          (ap
            (λ v. some (
              none_trap,
              set_xreg (record c { reservation = record (c.reservation) { valid = v } }) info.rd 1,
            ))
            (sym r))
    | inr e ↦ rw (amo_sc_exec, (==_iff _ _).1 even, no, e) refl
  ]
    where
      no : reservation_matches c.reservation (c.xregs info.rs1) info.mem_size c.hart_id ≡ false
      no = ground (arith, r)

  -- Whatever the store does, the reservation is gone.
  sc_store_gives_up :
      (c c2 : Cpu B) (info : DecodeInfo) (t : Trap)
      → sc_store c info ≡ some (t, c2)
      → c2.reservation.valid ≡ 0
  sc_store_gives_up c c2 info t e =
      elim (store_frame (given_up c) (c.xregs info.rs1) info.mem_size
        (le_bytes 8 (c.xregs info.rs2))) [
          | inl f ↦ let is : sc_store c info ≡ none = rw (sc_store, f) refl in cc
          | inr (ok u, mmu, f) ↦
              let is : sc_store c info
                  ≡ some (none_trap, set_xreg (with_mmu (given_up c) mmu) info.rd 0) =
                rw (sc_store, f) refl in
              ap (λ (x : Cpu B). x.reservation.valid) (same_result (sym e ∙ is))
          | inr (trapped t', mmu, f) ↦
              let is : sc_store c info ≡ some (t', with_mmu (given_up c) mmu) =
                rw (sc_store, f) refl in
              ap (λ (x : Cpu B). x.reservation.valid) (same_result (sym e ∙ is))
        ]

  -- SC at the bytes that an LR just reserved.
  reserved_after :
      (c c1 : Cpu B) (lr sc : DecodeInfo)
      → amo_lr_exec m c lr ≡ some (none_trap, c1)
      → sc.rs1 ≡ lr.rs1
      → sc.mem_size ≡ lr.mem_size
      → lr.rd ≢ lr.rs1
      → (c1.xregs sc.rs1 % sc.mem_size ≡ 0) × Reserves c1 (c1.xregs sc.rs1) sc.mem_size
  reserved_after c c1 lr sc e same size other =
      let (even, (mmu, x, is)) = lr_reserves c c1 lr e in
      elim is [
        | inl is ↦
            subst
              (λ d. (d.xregs sc.rs1 % sc.mem_size ≡ 0) × Reserves d (d.xregs sc.rs1) sc.mem_size) is
              (rw (same, size, kept x)
                (even, record { at_addr = refl; of_size = refl; is_valid = refl; by_hart = refl }))
        | inr is ↦
            subst
              (λ d. (d.xregs sc.rs1 % sc.mem_size ≡ 0) × Reserves d (d.xregs sc.rs1) sc.mem_size) is
              (rw (same, size)
                (even, record { at_addr = refl; of_size = refl; is_valid = refl; by_hart = refl }))
      ]
    where
      kept : (x : ℕ) → update c.xregs lr.rd x lr.rs1 ≡ c.xregs lr.rs1
      kept x = ground arith

-- SC after an LR of the same address and width that raised no trap and did not overwrite its address:
-- SC is not refused, and its store decides the outcome; and when the SC has ended in any way, a
-- further SC to an aligned address fails, writes 1 to its rd and changes nothing else.
pub amo_sc_exec-amo_lr_exec :
    {B : Type 0} (m : MmioDevice B) (c c1 c2 : Cpu B) (lr sc again : DecodeInfo) (t : Trap)
    → amo_lr_exec m c lr ≡ some (none_trap, c1)
    → sc.rs1 ≡ lr.rs1
    → sc.mem_size ≡ lr.mem_size
    → lr.rd ≢ lr.rs1
    → amo_sc_exec m c1 sc ≡ some (t, c2)
    → c2.xregs again.rs1 % again.mem_size ≡ 0
    → (amo_sc_exec m c1 sc ≡ sc_store m c1 sc)
      × (amo_sc_exec m c2 again ≡ some (none_trap, set_xreg c2 again.rd 1))
amo_sc_exec-amo_lr_exec m c c1 c2 lr sc again t e same size other done even =
    let (at, held) = reserved_after m c c1 lr sc e same size other in
    let is : amo_sc_exec m c1 sc ≡ sc_store m c1 sc = sc_succeeds m c1 sc at held in
    (is, sc_fails m c2 again even (sc_store_gives_up m c1 c2 sc t (sym is ∙ done)))
