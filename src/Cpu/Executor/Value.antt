-- ===== src/Cpu/Executor/Value.antt =====
-- What an instruction does to the hart, and the traps that it raises.
use rv64_emulator.Common.{ℕ, Option, none, some}
use rv64_emulator.Cpu.Trap.{Trap, none_trap, illegal_instruction}
use rv64_emulator.Cpu.Hart.{Cpu, set_xreg}
use rv64_emulator.Cpu.Decode.Info.{DecodeInfo}

-- The result of a `switch` on the token: a value, the default case, or behaviour that C++ leaves
-- undefined, such as a shift by the width or more.
pub data Value : Type 0 where
  value : ℕ → Value
  illegal undefined : Value

-- An execution function returns its trap and leaves the hart changed; `none` is undefined behaviour.
abbrev pub Exec : Type 0 → Type 0
Exec B = Option (Trap × Cpu B)

-- ILL_TRAP(info.word)
abbrev pub ill_trap : ℕ → Trap
ill_trap word = record { type = illegal_instruction; val = word }

-- `xregs[info.rd] = val; return kNoneTrap`, or what the switch left by.
unfoldable pub write_value : {B : Type 0} → Cpu B → DecodeInfo → Value → Exec B
write_value c info (value v) = some (none_trap, set_xreg c info.rd v)
write_value c info illegal = some (ill_trap info.word, c)
write_value c info undefined = none
