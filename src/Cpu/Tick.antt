-- ===== src/Cpu/Tick.antt =====
-- One step of the hart: CPU::TickOperate and CPU::Tick of src/cpu/cpu.cc.
pub mod Zero
pub mod Valid
use rv64_emulator.Common.{ℕ, ◌+◌, ◌%◌, ◌^◌, Bool, true, false, nonzero, of_bool, bit_and}
use rv64_emulator.Common.{Option, none, some, if◌then◌else◌, of_le_bytes}
use rv64_emulator.Words.{add_wrap}
use rv64_emulator.Device.Mmio.{MmioDevice}
use rv64_emulator.Cpu.Trap.{Trap, none_trap, illegal_instruction}
use rv64_emulator.Cpu.Csr.Addr.{csr_mip, csr_mie, csr_minstret}
use rv64_emulator.Cpu.Csr.State.{State, read, write, get_wfi, set_wfi, put}
use rv64_emulator.Cpu.Mmu.Access.{Reply, ok, trapped}
use rv64_emulator.Cpu.Decode.Table.{InstToken}
use rv64_emulator.Cpu.Decode.Info.{DecodeInfo, decode}
use rv64_emulator.Cpu.Hart.{Cpu, set_xreg, fetch}
use rv64_emulator.Cpu.Trapping.{handle_trap, handle_interrupt}
use rv64_emulator.Cpu.Executor.Value.{Exec}
use rv64_emulator.Cpu.Executor.Dispatch.{exec}

-- `token == InstToken::UNKNOWN`
unfoldable pub is_unknown : InstToken → Bool
is_unknown InstToken.unknown = true
is_unknown _ = false

-- The lines that the platform drives into mip.
pub record Lines : Type 0 where
  pub meip : Bool
  pub seip : Bool
  pub msip : Bool
  pub mtip : Bool
  pub update : Bool

-- The fields of `MipDesc` that Tick sets.
unfoldable pub mip_word : Lines → ℕ → ℕ
mip_word l v =
    put (put (put (put v (11, 1) (of_bool l.meip)) (9, 1) (of_bool l.seip)) (3, 1) (of_bool l.msip))
      (7, 1) (of_bool l.mtip)

unfoldable pub set_lines : {B : Type 0} → Lines → Cpu B → Cpu B
unfolding mip_word
set_lines l c =
    if l.update
    then record c { state = write c.state csr_mip (mip_word l (read c.state csr_mip)) }
    else c

-- `reg_file_.xregs[0] = 0`
abbrev pub clear_x0 : {B : Type 0} → Cpu B → Cpu B
clear_x0 c = set_xreg c 0 0

-- The wait of a hart that executed WFI.
unfoldable pub wait : {B : Type 0} → Cpu B → Cpu B
wait c =
    let pending = bit_and (read c.state csr_mie) (read c.state csr_mip) in
    if nonzero pending then record c { state = set_wfi c.state false } else c

-- The end of Tick: the trap, the interrupt and the retirement counter, which has 64 bits.
unfoldable pub finish : {B : Type 0} → ℕ → Trap → Cpu B → Cpu B
finish epc trap c =
    let c1 = handle_trap c trap epc in
    let c2 = handle_interrupt c1 c1.pc in
    let n = add_wrap 64 c2.instret 1 in
    record c2 { instret = n; state = write c2.state csr_minstret n }

module _ {B : Type 0} (m : MmioDevice B) (now : ℕ) where
  -- The decode and execute stages on a word that was fetched.
  unfoldable pub run_word : Cpu B → ℕ → Exec B
  unfolding is_unknown
  run_word c word = elim (decode word c.pc) [
    | none ↦ none
    | some info ↦
        let next = record c { pc = add_wrap 64 c.pc info.size } in
        if is_unknown info.token
        then some (record { type = illegal_instruction; val = word }, next)
        else elim (exec m now next info) [ none ↦ none | some (t, c1) ↦ some (t, clear_x0 c1) ]
  ]

  -- CPU::TickOperate
  unfoldable pub tick_operate : Cpu B → Exec B
  unfolding run_word wait
  tick_operate c = if get_wfi c.state then some (none_trap, wait c) else elim (fetch m c c.pc 4) [
    | none ↦ none
    | some (trapped t, c1) ↦ some (t, c1)
    | some (ok bytes, c1) ↦ run_word c1 (of_le_bytes bytes)
  ]

  -- CPU::Tick; `none` is undefined behaviour.
  unfoldable pub tick : Lines → Cpu B → Option (Cpu B)
  unfolding set_lines tick_operate finish
  tick l c =
      let c0 = set_lines l c in
      elim (tick_operate c0) [ none ↦ none | some (t, c1) ↦ some (finish c0.pc t c1) ]
