-- ===== src/Jit/Asm.antt =====
-- The calls of the assembler that src/jit/jit.cc makes, with their operands as it writes them.
use rv64_emulator.Common.{ℕ, List, ◌++◌}

-- `GpX(n)`, `GpW(n)`, and the ids of the zero register and of the stack pointer.
pub data Gp : Type 0 where
  gp : ℕ → Gp
  zr sp : Gp

-- The width of a register operand: `GpX` or `GpW`.
pub data Width : Type 0 where
  wide half : Width

-- `XRegToMem(r)`, `ptr(x29, kPcBias)`, `ptr(x29, kInstretBias)`, `ptr(sp, offset)` and `ptr(reg)`.
pub data Mem : Type 0 where
  xreg : ℕ → Mem
  pc_field instret_field : Mem
  stack : ℕ → Mem
  at : Gp → Mem

-- `Assembler::newLabel()`, by its number, and the member `epilog_tag_`.
pub data Label : Type 0 where
  fresh : ℕ → Label
  epilog_tag : Label

-- A pointer of the host as an immediate: `cpu_`, `&exit_trap_`, `MmuLoad`, `MmuStore`.
pub data Symbol : Type 0 where
  cpu_ptr exit_trap_ptr mmu_load_ptr mmu_store_ptr : Symbol

-- The methods with three registers.
pub data Op3 : Type 0 where
  op_add op_sub op_lsl op_eor op_lsr op_asr op_orr op_and op_mul op_smulh op_umulh : Op3
  op_sdiv op_udiv : Op3

-- Those with two.
pub data Op2 : Type 0 where
  op_mov op_neg op_mvn op_sxtb op_sxth op_sxtw : Op2

-- CondCode::kLT and CondCode::kLO
pub data Cond : Type 0 where
  cond_lt cond_lo : Cond

-- One call.
pub data Call : Type 0 where
  reg3 : Op3 → Width → Gp → Gp → Gp → Call
  reg2 : Op2 → Width → Gp → Gp → Call
  mov_imm : Width → Gp → ℕ → Call
  imm3 : Op3 → Width → Gp → Gp → ℕ → Call
  msub : Width → Gp → Gp → Gp → Gp → Call
  cmp : Width → Gp → Gp → Call
  cset : Gp → Cond → Call
  cbz cbnz : Width → Gp → Label → Call
  tbnz : Gp → ℕ → Label → Call
  b bind : Label → Call
  ldr str : Width → Gp → Mem → Call
  ldp stp : Gp → Gp → Mem → Call
  mov_symbol : Gp → Symbol → Call
  blr ret : Gp → Call

-- Calls in order, with the number of labels that they create.
pub record Chunk : Type 0 where
  pub labels : ℕ
  pub calls : List Call

-- Calls that create no label.
abbrev pub straight : List Call → Chunk
straight calls = record { labels = 0; calls = calls }

-- Calls around a chunk.
abbrev pub around : List Call → Chunk → List Call → Chunk
around before c after = record { labels = c.labels; calls = before ++ (c.calls ++ after) }
