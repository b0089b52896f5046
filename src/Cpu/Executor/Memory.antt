-- ===== src/Cpu/Executor/Memory.antt =====
-- Loads and stores: LoadTypeExec and StoreTypeExec.
use rv64_emulator.Common.{ℕ, none, some, le_bytes, of_le_bytes}
use rv64_emulator.Words.{sext, add_wrap}
use rv64_emulator.Device.Mmio.{MmioDevice}
use rv64_emulator.Cpu.Trap.{none_trap}
use rv64_emulator.Cpu.Mmu.Access.{ok, trapped}
use rv64_emulator.Cpu.Decode.Table.{InstToken}
use rv64_emulator.Cpu.Decode.Info.{DecodeInfo}
use rv64_emulator.Cpu.Hart.{Cpu, set_xreg}
use rv64_emulator.Cpu.Hart
use rv64_emulator.Cpu.Executor.Value.{Value, value, illegal, Exec, write_value}

-- The switch of LoadTypeExec on the bytes that were read, as one number.
unfoldable pub load_value : InstToken → ℕ → Value
load_value InstToken.lb loaded = value (sext 8 loaded)
load_value InstToken.lh loaded = value (sext 16 loaded)
load_value InstToken.lw loaded = value (sext 32 loaded)
load_value InstToken.ld loaded = value loaded
load_value InstToken.lbu loaded = value loaded
load_value InstToken.lhu loaded = value loaded
load_value InstToken.lwu loaded = value loaded
load_value _ loaded = illegal

module _ {B : Type 0} (m : MmioDevice B) (c : Cpu B) (info : DecodeInfo) where
  -- `xregs[rs1] + imm`
  abbrev pub target_addr : ℕ
  target_addr = add_wrap 64 (c.xregs info.rs1) (sext 32 info.imm)

  -- Executor::LoadTypeExec
  unfoldable pub load_type_exec : Exec B
  unfolding load_value write_value
  load_type_exec = elim (Hart.load m c target_addr info.mem_size) [
    | none ↦ none
    | some (trapped t, c1) ↦ some (t, c1)
    | some (ok bytes, c1) ↦ write_value c1 info (load_value info.token (of_le_bytes bytes))
  ]

  -- Executor::StoreTypeExec. The buffer is the eight bytes of the register.
  unfoldable pub store_type_exec : Exec B
  store_type_exec =
      elim (Hart.store m c target_addr info.mem_size (le_bytes 8 (c.xregs info.rs2))) [
        | none ↦ none
        | some (trapped t, c1) ↦ some (t, c1)
        | some (ok u, c1) ↦ some (none_trap, c1)
      ]
