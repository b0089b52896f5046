-- ===== src/Cpu/Executor/System.antt =====
-- The system instructions: CsrTypeExec, ECallExec, SfenceVmaExec, MRetExec, SRetExec,
-- SystemTypeExec, and FenceTypeExec. The guest's time stamp is an argument.
use rv64_emulator.Common.{ℕ, Bool, true, false, ◌&&◌, ◌||◌, not, nonzero, ◌==◌, Option, none, some}
use rv64_emulator.Common.{List, [], ◌∷◌, if◌then◌else◌, bit_and, bit_or}
use rv64_emulator.Bits.Digit.{bit_not}
use rv64_emulator.Words.{add_wrap}
use rv64_emulator.Cpu.Trap.{
  TrapType, no_trap, none_trap, breakpoint, environment_call_from_u_mode,
  environment_call_from_s_mode, environment_call_from_m_mode,
}
use rv64_emulator.Cpu.Mode.{
  PrivilegeMode, user, supervisor, reserved, machine, mode_of, mode_eq, mode_lt,
}
use rv64_emulator.Cpu.Csr.Addr.{
  csr_mvendor_id, csr_march_id, csr_mimp_id, csr_mhart_id, csr_mstatus, csr_sstatus, csr_misa,
  csr_medeleg, csr_mideleg, csr_mie, csr_mtvec, csr_mcounteren, csr_mscratch, csr_mepc, csr_mcause,
  csr_mtval, csr_mip, csr_mcycle, csr_minstret, csr_sie, csr_sip, csr_time, csr_sepc, csr_scause,
  csr_stval, csr_stvec, csr_satp, csr_tdata1, csr_tselect, csr_mconfig_ptr, csr_scounteren,
  csr_sscratch,
}
use rv64_emulator.Cpu.Csr.Layout.{sie, spie, spp, mie, mpie, mpp, mprv, tvm, tw, tsr}
use rv64_emulator.Cpu.Csr.State.{read, write, set_wfi, get, put}
use rv64_emulator.Cpu.Decode.Table.{InstToken}
use rv64_emulator.Cpu.Decode.Info.{DecodeInfo}
use rv64_emulator.Cpu.Hart.{Cpu, set_xreg, flush_tlb}
use rv64_emulator.Cpu.Executor.Value.{Exec, ill_trap}

-- kAllowedCsrs
unfoldable pub allowed_csrs : List ℕ
allowed_csrs =
    csr_mvendor_id ∷ csr_march_id ∷ csr_mcause ∷ csr_mcycle ∷ csr_medeleg ∷ csr_mepc ∷ csr_mhart_id
    ∷ csr_mideleg ∷ csr_mie ∷ csr_mip ∷ csr_misa ∷ csr_mstatus ∷ csr_mtval ∷ csr_mtvec
    ∷ csr_mscratch ∷ csr_mimp_id ∷ csr_minstret ∷ csr_mcounteren ∷ csr_satp ∷ csr_scause ∷ csr_sepc
    ∷ csr_sie ∷ csr_sip ∷ csr_sstatus ∷ csr_stval ∷ csr_stvec ∷ csr_tdata1 ∷ csr_tselect
    ∷ csr_mconfig_ptr ∷ csr_scounteren ∷ csr_sscratch ∷ csr_time ∷ []

-- `kAllowedCsrs.count(addr)`
unfoldable pub allowed : ℕ → List ℕ → Bool
allowed addr [] = false
allowed addr (a ∷ l) = addr == a || allowed addr l

-- The switch of CsrTypeExec on the old value, the register and the field of rs1.
unfoldable pub csr_value : InstToken → ℕ → ℕ → ℕ → Option ℕ
csr_value InstToken.csrrw old v imm = some v
csr_value InstToken.csrrs old v imm = some (bit_or v old)
csr_value InstToken.csrrc old v imm = some (bit_and old (bit_not 64 v))
csr_value InstToken.csrrwi old v imm = some imm
csr_value InstToken.csrrsi old v imm = some (bit_or old imm)
csr_value InstToken.csrrci old v imm = some (bit_and old (bit_not 64 imm))
csr_value _ old v imm = none

-- `writable`
unfoldable pub is_writable : InstToken → ℕ → Bool
is_writable InstToken.csrrw rs1 = true
is_writable InstToken.csrrwi rs1 = true
is_writable _ rs1 = nonzero rs1

-- The switch of ECallExec.
unfoldable pub ecall_trap : PrivilegeMode → TrapType
ecall_trap user = environment_call_from_u_mode
ecall_trap supervisor = environment_call_from_s_mode
ecall_trap machine = environment_call_from_m_mode
ecall_trap reserved = no_trap

-- The status words that MRetExec and SRetExec write.
unfoldable pub mret_status : ℕ → ℕ
mret_status old =
    put (put (put (put old mpp 0) mpie 1) mie (get old mpie)) mprv
      (if mode_lt (mode_of (get old mpp)) machine then 0 else get old mprv)

unfoldable pub sret_status : ℕ → ℕ
sret_status old =
    put (put (put (put old spp 0) spie 1) sie (get old spie)) mprv
      (if mode_lt (mode_of (get old spp)) machine then 0 else get old mprv)

module _ {B : Type 0} (now : ℕ) (c : Cpu B) (info : DecodeInfo) where
  abbrev pub ms_val : ℕ
  ms_val = read c.state csr_mstatus

  abbrev pub in_s_mode : Bool
  in_s_mode = mode_eq c.priv_mode supervisor

  -- Executor::CsrTypeExec
  unfoldable pub csr_type_exec : Exec B
  unfolding csr_value is_writable
  csr_type_exec =
      let state = if info.imm == csr_time then write c.state info.imm now else c.state in
      let old = read state info.imm in
      if not (allowed info.imm allowed_csrs)
      then some (ill_trap info.word, c)
      else if info.imm == csr_satp && in_s_mode && nonzero (get ms_val tvm)
      then some (ill_trap info.word, c)
      else elim (csr_value info.token old (c.xregs info.rs1) info.rs1) [
        | none ↦ some (ill_trap info.word, record c { state = state })
        | some v ↦ some (
          none_trap,
          set_xreg
              (record c {
                state = if is_writable info.token info.rs1 then write state info.imm v else state;
              })
              info.rd old,
        )
      ]

  -- Executor::ECallExec
  unfoldable pub ecall_exec : Exec B
  unfolding ecall_trap
  ecall_exec =
      some (record { type = ecall_trap c.priv_mode; val = add_wrap 64 info.pc info.size }, c)

  -- Executor::SfenceVmaExec
  unfoldable pub sfence_vma_exec : Exec B
  sfence_vma_exec =
      if mode_lt c.priv_mode supervisor || (in_s_mode && nonzero (get ms_val tvm))
      then some (ill_trap info.word, c)
      else some (none_trap, flush_tlb (c.xregs info.rs1) (bit_and (c.xregs info.rs2) 0xffff) c)

  -- Executor::MRetExec
  unfoldable pub mret_exec : Exec B
  unfolding mret_status
  mret_exec =
      let state = write c.state csr_mstatus (mret_status ms_val) in
      if mode_lt c.priv_mode machine
      then some (ill_trap info.word, c)
      else some (
        none_trap,
        record c { pc = read state csr_mepc; state = state; priv_mode = mode_of (get ms_val mpp) },
      )

  -- Executor::SRetExec
  unfoldable pub sret_exec : Exec B
  unfolding sret_status
  sret_exec =
      let state = write c.state csr_mstatus (sret_status ms_val) in
      if mode_lt c.priv_mode supervisor || nonzero (get ms_val tsr)
      then some (ill_trap info.word, c)
      else some (
        none_trap,
        record c { pc = read state csr_sepc; state = state; priv_mode = mode_of (get ms_val spp) },
      )

  -- The WFI case.
  unfoldable pub wfi_exec : Exec B
  wfi_exec = some (
    none_trap,
    record c { state = if nonzero (get ms_val tw) then set_wfi c.state true else c.state },
  )

  -- Executor::SystemTypeExec
  unfoldable pub system_type_exec : Exec B
  unfolding csr_type_exec ecall_exec sfence_vma_exec mret_exec sret_exec wfi_exec
  system_type_exec = elim info.token [
    | InstToken.csrrw ↦ csr_type_exec
    | InstToken.csrrs ↦ csr_type_exec
    | InstToken.csrrc ↦ csr_type_exec
    | InstToken.csrrwi ↦ csr_type_exec
    | InstToken.csrrsi ↦ csr_type_exec
    | InstToken.csrrci ↦ csr_type_exec
    | InstToken.ebreak ↦ some (record { type = breakpoint; val = 0 }, c)
    | InstToken.ecall ↦ ecall_exec
    | InstToken.wfi ↦ wfi_exec
    | InstToken.sfence_vma ↦ sfence_vma_exec
    | InstToken.mret ↦ mret_exec
    | InstToken.sret ↦ sret_exec
    | _ ↦ some (ill_trap info.word, c)
  ]

-- Executor::FenceTypeExec, which does nothing.
unfoldable pub fence_type_exec : {B : Type 0} → Cpu B → Exec B
fence_type_exec c = some (none_trap, c)
