-- ===== src/Cpu/Trapping/Status.antt =====
-- The bits of the status words that traps and returns write.
use rv64_emulator.Common.{ℕ, ◌≡◌, refl, arith, true, false, ◌||◌, if◌then◌else◌, ◌==◌}
use rv64_emulator.Common.{◌∙◌, suc, Bool-cases, ==_iff, inl, inr}
use rv64_emulator.Bits.Digit.{bit}
use rv64_emulator.Bits.Fields.{field, set_field, bit-set_field, bit-field}
use rv64_emulator.Bits.Copy.{copy_fields, covers, bit-copy_fields}
use rv64_emulator.Cpu.Mode.{PrivilegeMode, machine, mode_index, mode_of, mode_lt}
use rv64_emulator.Cpu.Csr.Layout.{
  mie, mpie, mpp, mprv, mstatus_write_fields, sstatus_write_fields, sstatus_read_fields,
}
use rv64_emulator.Cpu.Csr.State.{get, put}
use rv64_emulator.Cpu.Trapping.{enter_m, enter_s}
use rv64_emulator.Cpu.Executor.System.{mret_status}

pub bit-put : (v lo x i : ℕ) → bit (set_field v lo 1 x) i ≡ (if i == lo then bit x 0 else bit v i)
bit-put v lo x i = elim (Bool-cases (i == lo)) [
  | inl e ↦ rw (bit-set_field v lo 1 x i, e, (==_iff i lo).0 e) (ground arith)
  | inr e ↦ rw (bit-set_field v lo 1 x i, e) (ground arith)
]

pub bit-get : (v lo : ℕ) → bit (field v lo 1) 0 ≡ bit v lo
bit-get v lo = ground (arith, bit-field v lo 1 lo)

bit-put_two :
    (v lo x i : ℕ)
    → bit (set_field v lo 2 x) i
      ≡ (if i == lo then bit x 0 else if i == suc lo then bit x 1 else bit v i)
bit-put_two v lo x i = elim (Bool-cases (i == lo)) [
  | inl e ↦ rw (bit-set_field v lo 2 x i, e, (==_iff i lo).0 e) (ground arith)
  | inr e ↦ elim (Bool-cases (i == suc lo)) [
    | inl q ↦ rw (bit-set_field v lo 2 x i, e, q, (==_iff i (suc lo)).0 q) (ground arith)
    | inr q ↦ rw (bit-set_field v lo 2 x i, e, q) (ground arith)
  ]
]

-- A bit of mstatus after a trap to M mode: MPIE is the old MIE, MIE is 0, MPP is the mode.
abbrev pub after_m : ℕ → PrivilegeMode → ℕ → ℕ
after_m st origin i =
    if i == 7
    then bit st 3
    else if i == 3
    then 0
    else if i == 11
    then bit (mode_index origin) 0
    else if i == 12
    then bit (mode_index origin) 1
    else bit st i

bit-enter_m :
    (st : ℕ) (origin : PrivilegeMode) (i : ℕ) → bit (enter_m st origin) i ≡ after_m st origin i
unfolding enter_m
bit-enter_m st origin i =
    rw
      (
        bit-put_two (set_field (set_field st 7 1 (field st 3 1)) 3 1 0) 11 (mode_index origin) i,
        bit-put (set_field st 7 1 (field st 3 1)) 3 0 i,
        bit-put st 7 (field st 3 1) i,
        bit-get st 3,
      )
      (ground arith)

pub bit-status_m :
    (st : ℕ) (origin : PrivilegeMode) (i : ℕ)
    → bit (copy_fields mstatus_write_fields (enter_m st origin) st) i ≡ after_m st origin i
unfolding covers
bit-status_m st origin i =
    ground (
      arith,
      bit-copy_fields mstatus_write_fields (enter_m st origin) st i,
      bit-enter_m st origin i,
    )

-- A bit of mstatus after a trap to S mode, through its window sstatus: SPIE is the old SIE, SIE is
-- 0, SPP is the low bit of the mode.
abbrev pub after_s : ℕ → PrivilegeMode → ℕ → ℕ
after_s st origin i =
    if i == 5
    then bit st 1
    else if i == 1
    then 0
    else if i == 8
    then bit (mode_index origin) 0
    else bit st i

bit-enter_s :
    (st : ℕ) (origin : PrivilegeMode) (i : ℕ) → bit (enter_s st origin) i ≡ after_s st origin i
unfolding enter_s
bit-enter_s st origin i =
    rw
      (
        bit-put (set_field (set_field st 5 1 (field st 1 1)) 1 1 0) 8 (mode_index origin) i,
        bit-put (set_field st 5 1 (field st 1 1)) 1 0 i,
        bit-put st 5 (field st 1 1) i,
        bit-get st 1,
      )
      (ground arith)

abbrev window : ℕ → ℕ
window st = copy_fields sstatus_read_fields st 0

bit-window : (st i : ℕ) → covers sstatus_write_fields i ≡ true → bit (window st) i ≡ bit st i
unfolding covers
bit-window st i h = bit-copy_fields sstatus_read_fields st 0 i ∙ ground arith

pub bit-status_s :
    (st : ℕ) (origin : PrivilegeMode) (i : ℕ)
    → bit (copy_fields sstatus_write_fields (enter_s (window st) origin) st) i ≡ after_s st origin i
unfolding covers
bit-status_s st origin i =
    bit-copy_fields sstatus_write_fields (enter_s (window st) origin) st i
    ∙ elim (Bool-cases (covers sstatus_write_fields i)) [
      | inl e ↦
          rw (e, bit-enter_s (window st) origin i, bit-window st i e, bit-window st 1 shown) refl
      | inr e ↦ rw e (hidden e)
    ]
  where
    shown : covers sstatus_write_fields 1 ≡ true
    shown = refl

    hidden : covers sstatus_write_fields i ≡ false → bit st i ≡ after_s st origin i
    hidden e = ground arith

-- A bit of mstatus after MRET: MIE is the old MPIE, MPIE is 1, MPP is 0, and MPRV is cleared
-- unless MPP was M.
abbrev pub after_mret : ℕ → ℕ → ℕ
after_mret st i =
    if i == 3
    then bit st 7
    else if i == 7
    then 1
    else if i == 11 || i == 12
    then 0
    else if i == 17
    then (if get st mpp == 3 then bit st 17 else 0)
    else bit st i

bit-mprv :
    (st : ℕ)
    → bit (if mode_lt (mode_of (get st mpp)) machine then 0 else get st mprv) 0
      ≡ (if get st mpp == 3 then bit st 17 else 0)
unfolding mode_lt mode_of
bit-mprv st = ground (arith, bit-get st 17)

bit-mret_status : (st i : ℕ) → bit (mret_status st) i ≡ after_mret st i
unfolding mret_status
bit-mret_status st i =
    rw
      (
        bit-put (put (put (put st mpp 0) mpie 1) mie (get st mpie)) 17
            (if mode_lt (mode_of (get st mpp)) machine then 0 else get st mprv) i,
        bit-put (put (put st mpp 0) mpie 1) 3 (get st mpie) i,
        bit-put (put st mpp 0) 7 1 i,
        bit-put_two st 11 0 i,
        bit-get st 7,
        bit-mprv st,
      )
      (ground arith)

not_covered :
    (i : ℕ)
    → covers mstatus_write_fields i ≡ false
    → ((i == 3) ≡ false)
      × ((i == 7) ≡ false)
      × ((i == 11) ≡ false)
      × ((i == 12) ≡ false)
      × ((i == 17) ≡ false)
unfolding covers
not_covered i h = ground arith

pub bit-status_mret :
    (st i : ℕ) → bit (copy_fields mstatus_write_fields (mret_status st) st) i ≡ after_mret st i
bit-status_mret st i =
    bit-copy_fields mstatus_write_fields (mret_status st) st i
    ∙ elim (Bool-cases (covers mstatus_write_fields i)) [
      | inl e ↦ rw e (bit-mret_status st i)
      | inr e ↦ let (n3, n7, n11, n12, n17) = not_covered i e in rw (e, n3, n7, n11, n12, n17) refl
    ]
