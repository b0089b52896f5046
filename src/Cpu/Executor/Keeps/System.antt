-- ===== src/Cpu/Executor/Keeps/System.antt =====
-- The system instructions leave a valid hart.
use rv64_emulator.Common.{
  ℕ, ◌+◌, ◌^◌, ◌<◌, ◌≤◌, refl, ◌≡◌, arith, Bool, true, false, ◌&&◌, ◌||◌, not, nonzero, ◌==◌,
  if◌then◌else◌,
}
use rv64_emulator.Common.{Option, none, some}
use rv64_emulator.Bits.Bounds.{set_field-lt}
use rv64_emulator.Bits.Fields.{set_field}
use rv64_emulator.Cpu.Trap.{none_trap, breakpoint}
use rv64_emulator.Cpu.Mode.{PrivilegeMode, supervisor, machine, mode_of, mode_lt}
use rv64_emulator.Cpu.Csr.Addr.{csr_satp, csr_mstatus, csr_mepc, csr_sepc, csr_time}
use rv64_emulator.Cpu.Csr.Layout.{mpie, spie, mpp, spp, mprv, tvm, tsr}
use rv64_emulator.Cpu.Csr.State.{State, read, write, get, set_wfi}
use rv64_emulator.Cpu.Csr.Invariant.{write-IsValid, read-lt, set_wfi-IsValid}
use rv64_emulator.Cpu.Csr.Invariant
use rv64_emulator.Cpu.Decode.Table.{InstToken}
use rv64_emulator.Cpu.Decode.Info.{DecodeInfo}
use rv64_emulator.Cpu.Hart.{Cpu, set_xreg, flush_tlb}
use rv64_emulator.Cpu.Hart.Valid.{
  IsValid, KeepsValid, set_xreg-IsValid, set_state-IsValid, flush_tlb-Keeps,
}
use rv64_emulator.Cpu.Executor.Value.{ill_trap}
use rv64_emulator.Cpu.Executor.Bounds.{csr_value-lt}
use rv64_emulator.Cpu.Executor.Keeps.{IsDecoded, none_trap-lt, either}
use rv64_emulator.Cpu.Executor.System.{
  csr_type_exec, ecall_exec, sfence_vma_exec, mret_exec, sret_exec, wfi_exec, system_type_exec,
  fence_type_exec, mret_status, sret_status, csr_value, is_writable, in_s_mode, ms_val, allowed,
  allowed_csrs,
}

-- Four fields written one after the other.
four-lt :
    (v a m x b n y c o z d p w : ℕ)
    → v < 2 ^ 64
    → a + m ≤ 64
    → b + n ≤ 64
    → c + o ≤ 64
    → d + p ≤ 64
    → set_field (set_field (set_field (set_field v a m x) b n y) c o z) d p w < 2 ^ 64
four-lt v a m x b n y c o z d p w h i j k l =
    set_field-lt _ d p w
      (set_field-lt _ c o z (set_field-lt _ b n y (set_field-lt v a m x h i) j) k) l

mret_status-lt : (old : ℕ) → old < 2 ^ 64 → mret_status old < 2 ^ 64
unfolding mret_status
mret_status-lt old h =
    four-lt old 11 2 0 7 1 1 3 1 (get old mpie) 17 1
      (if mode_lt (mode_of (get old mpp)) machine then 0 else get old mprv) h (omega arith)
      (omega arith) (omega arith) (omega arith)

sret_status-lt : (old : ℕ) → old < 2 ^ 64 → sret_status old < 2 ^ 64
unfolding sret_status
sret_status-lt old h =
    four-lt old 8 1 0 5 1 1 1 1 (get old spie) 17 1
      (if mode_lt (mode_of (get old spp)) machine then 0 else get old mprv) h (omega arith)
      (omega arith) (omega arith) (omega arith)

module _ {B : Type 0} (P : B → Type 0) (now : ℕ) (c : Cpu B) (info : DecodeInfo) (z : now < 2 ^ 64)
    (v : IsValid P c) (d : IsDecoded info) where
  ill : KeepsValid P (some (ill_trap info.word, c))
  ill = (d.word_bound, v)

  flushed : (vaddr asid : ℕ) → KeepsValid P (some (none_trap, flush_tlb vaddr asid c))
  flushed vaddr asid = (none_trap-lt, flush_tlb-Keeps P vaddr asid c v)

  -- The registers after the clock was written, and after the instruction wrote.
  clocked : (b : Bool) → Invariant.IsValid (if b then write c.state info.imm now else c.state)
  clocked true = write-IsValid c.state info.imm now v.registers z
  clocked false = v.registers

  written :
      (b : Bool) (s : State) (x : ℕ)
      → Invariant.IsValid s
      → x < 2 ^ 64
      → Invariant.IsValid (if b then write s info.imm x else s)
  written true s x h k = write-IsValid s info.imm x h k
  written false s x h k = h

  csr_type_exec-Keeps : KeepsValid P (csr_type_exec now c info)
  unfolding csr_type_exec
  csr_type_exec-Keeps = either P (not (allowed info.imm allowed_csrs)) _ _ ill (
      either P
        (info.imm == csr_satp && in_s_mode now c info && nonzero (get (ms_val now c info) tvm)) _ _
        ill
        (after (csr_value info.token old (c.xregs info.rs1) info.rs1) (λ x e.
          csr_value-lt info.token old (c.xregs info.rs1) info.rs1 old-lt (v.words info.rs1)
            d.rs1_bound e)))
    where
      state : State
      state = if info.imm == csr_time then write c.state info.imm now else c.state

      state-IsValid : Invariant.IsValid state
      state-IsValid = clocked (info.imm == csr_time)

      old : ℕ
      old = read state info.imm

      old-lt : old < 2 ^ 64
      old-lt = read-lt state info.imm state-IsValid

      after :
          (o : Option ℕ)
          → ((x : ℕ) → o ≡ some x → x < 2 ^ 64)
          → KeepsValid P (elim o [
            | none ↦ some (ill_trap info.word, record c { state = state })
            | some x ↦ some (
              none_trap,
              set_xreg
                  (record c {
                    state =
                        if is_writable info.token info.rs1 then write state info.imm x else state;
                  })
                  info.rd
                  old,
            )
          ])
      after none h = (d.word_bound, set_state-IsValid P c state v state-IsValid)
      after (some x) h = (
        none_trap-lt,
        set_xreg-IsValid P _ info.rd old
            (set_state-IsValid P c _ v (written _ state x state-IsValid (h x refl))) old-lt,
      )

  ecall_exec-Keeps : KeepsValid P (ecall_exec now c info)
  unfolding ecall_exec
  ecall_exec-Keeps = (omega arith, v)

  sfence_vma_exec-Keeps : KeepsValid P (sfence_vma_exec now c info)
  unfolding sfence_vma_exec
  sfence_vma_exec-Keeps =
      either P
        (mode_lt c.priv_mode supervisor
          || (in_s_mode now c info && nonzero (get (ms_val now c info) tvm)))
        _ _ ill (flushed _ _)

  -- A return to the address that a register holds.
  returns :
      (status addr : ℕ) (mode : PrivilegeMode)
      → status < 2 ^ 64
      → KeepsValid P (
          some (
            none_trap,
            record c {
              pc = read (write c.state csr_mstatus status) addr;
              state = write c.state csr_mstatus status;
              priv_mode = mode;
            },
          ))
  returns status addr mode h =
      let registers : Invariant.IsValid (write c.state csr_mstatus status) =
        write-IsValid c.state csr_mstatus status v.registers h in
      (
        none_trap-lt,
        record {
          pc_word = read-lt _ addr registers;
          instret_word = v.instret_word;
          words = v.words;
          registers = registers;
          unit = v.unit;
        },
      )

  mret_exec-Keeps : KeepsValid P (mret_exec now c info)
  unfolding mret_exec
  mret_exec-Keeps =
      either P (mode_lt c.priv_mode machine) _ _ ill
        (returns _ csr_mepc _ (mret_status-lt _ (read-lt c.state csr_mstatus v.registers)))

  sret_exec-Keeps : KeepsValid P (sret_exec now c info)
  unfolding sret_exec
  sret_exec-Keeps =
      either P (mode_lt c.priv_mode supervisor || nonzero (get (ms_val now c info) tsr)) _ _ ill
        (returns _ csr_sepc _ (sret_status-lt _ (read-lt c.state csr_mstatus v.registers)))

  wfi_exec-Keeps : KeepsValid P (wfi_exec now c info)
  unfolding wfi_exec
  wfi_exec-Keeps = (none_trap-lt, set_state-IsValid P c _ v (waits _))
    where
      waits : (b : Bool) → Invariant.IsValid (if b then set_wfi c.state true else c.state)
      waits true = set_wfi-IsValid c.state true v.registers
      waits false = v.registers

  pub system_type_exec-Keeps : KeepsValid P (system_type_exec now c info)
  unfolding system_type_exec
  system_type_exec-Keeps = by_token info.token
    where
      by_token :
          (t : InstToken)
          → KeepsValid P (elim t [
            | InstToken.csrrw ↦ csr_type_exec now c info
            | InstToken.csrrs ↦ csr_type_exec now c info
            | InstToken.csrrc ↦ csr_type_exec now c info
            | InstToken.csrrwi ↦ csr_type_exec now c info
            | InstToken.csrrsi ↦ csr_type_exec now c info
            | InstToken.csrrci ↦ csr_type_exec now c info
            | InstToken.ebreak ↦ some (record { type = breakpoint; val = 0 }, c)
            | InstToken.ecall ↦ ecall_exec now c info
            | InstToken.wfi ↦ wfi_exec now c info
            | InstToken.sfence_vma ↦ sfence_vma_exec now c info
            | InstToken.mret ↦ mret_exec now c info
            | InstToken.sret ↦ sret_exec now c info
            | _ ↦ some (ill_trap info.word, c)
          ])
      by_token InstToken.csrrw = csr_type_exec-Keeps
      by_token InstToken.csrrs = csr_type_exec-Keeps
      by_token InstToken.csrrc = csr_type_exec-Keeps
      by_token InstToken.csrrwi = csr_type_exec-Keeps
      by_token InstToken.csrrsi = csr_type_exec-Keeps
      by_token InstToken.csrrci = csr_type_exec-Keeps
      by_token InstToken.ebreak = (omega arith, v)
      by_token InstToken.ecall = ecall_exec-Keeps
      by_token InstToken.wfi = wfi_exec-Keeps
      by_token InstToken.sfence_vma = sfence_vma_exec-Keeps
      by_token InstToken.mret = mret_exec-Keeps
      by_token InstToken.sret = sret_exec-Keeps
      by_token _ = (d.word_bound, v)

  pub fence_type_exec-Keeps : KeepsValid P (fence_type_exec c)
  unfolding fence_type_exec
  fence_type_exec-Keeps = (none_trap-lt, v)
