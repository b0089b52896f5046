-- ===== src/Jit/Access.antt =====
-- SaveVolatileA64Reg, RestoreVolatileA64Reg, EmitLoad, EmitStore, Emit, and the functions of the
-- emulator that the emitted code calls.
use rv64_emulator.Common.{ℕ, zero, suc, ◌+◌, ◌%◌, ◌^◌, Bool, true, false, ◌==◌, ◌||◌, if◌then◌else◌}
use rv64_emulator.Common.{List, [], ◌∷◌, ◌++◌, Option, none, some, le_bytes, of_le_bytes}
use rv64_emulator.Words.{sext}
use rv64_emulator.Device.Mmio.{MmioDevice}
use rv64_emulator.Cpu.Trap.{Trap, none_trap}
use rv64_emulator.Cpu.Mmu.Access.{ok, trapped}
use rv64_emulator.Cpu.Hart.{Cpu}
use rv64_emulator.Cpu.Hart
use rv64_emulator.Cpu.Tick.{is_unknown}
use rv64_emulator.Cpu.Decode.Info.{
  DecodeInfo, op_reg, op_imm, op_lui, op_store, op_load, op_auipc, op_jal, op_jalr, op_imm32,
  op_rv32,
}
use rv64_emulator.Jit.Asm.{
  Gp, gp, Width, wide, half, Mem, xreg, stack, at, Label, fresh, epilog_tag, exit_trap_ptr,
  mmu_load_ptr, mmu_store_ptr, op_add, op_sub, op_mov, Call, reg3, reg2, mov_imm, imm3, cbnz, b,
  bind, ldr, str, ldp, stp, mov_symbol, blr, Chunk, straight,
}
use rv64_emulator.Jit.Map.{a64_reg, rv64_reg}
use rv64_emulator.Jit.Select.{select_sign_extend}
use rv64_emulator.Jit.Emit.{alloc, free, emit_reg, emit_reg32, emit_imm, emit_imm32}
use rv64_emulator.Jit.Jumps.{emit_lui, emit_auipc, emit_jal, emit_jalr}
use rv64_emulator.Jit.Frame.{emit_prolog, emit_epilog}

-- MmuLoad and MmuStore: the value, and the trap that goes to `*t`.
unfoldable pub mmu_load : {B : Type 0} → MmioDevice B → Cpu B → ℕ → ℕ → Option (ℕ × Trap × Cpu B)
mmu_load m c addr size = elim (Hart.load m c addr size) [
  | none ↦ none
  | some (trapped t, c1) ↦ some (0, t, c1)
  | some (ok bytes, c1) ↦ some (of_le_bytes bytes, none_trap, c1)
]

unfoldable pub mmu_store : {B : Type 0} → MmioDevice B → Cpu B → ℕ → ℕ → ℕ → Option (Trap × Cpu B)
mmu_store m c addr size value = elim (Hart.store m c addr size (le_bytes 8 value)) [
  | none ↦ none
  | some (trapped t, c1) ↦ some (t, c1)
  | some (ok u, c1) ↦ some (none_trap, c1)
]

-- The loop over the registers 0 to 18 of the host, from `i` on.
abbrev pub each_volatile : (Width → Gp → Mem → Call) → ℕ → ℕ → List Call
each_volatile move i zero = []
each_volatile move i (suc n) = one (rv64_reg i) ++ each_volatile move (suc i) n
  where
    one : Option ℕ → List Call
    one none = []
    one (some r) = move wide (gp i) (xreg r) ∷ []

-- SaveVolatileA64Reg and RestoreVolatileA64Reg
unfoldable pub save_volatile : List Call
save_volatile = each_volatile str 0 19

unfoldable pub restore_volatile : List Call
restore_volatile = each_volatile ldr 0 19

-- `ldr(x0, XRegToMem(kA64ToRv64Map[0]))`
abbrev recover_x0 : Call
recover_x0 = ldr wide (gp 0) (xreg 10)

-- The test of the trap that the call left, whose outcome goes to the given place of the frame; then
-- the registers come back, and the code branches where there is a trap.
abbrev check_trap : ℕ → Label → List Call
check_trap slot fail =
    mov_symbol (gp 0) exit_trap_ptr
    ∷ ldr half (gp 0) (at (gp 0))
    ∷ imm3 op_sub half (gp 0) (gp 0) 23
    ∷ str half (gp 0) (stack slot)
    ∷ (restore_volatile
        ++ (ldp (gp 29) (gp 30) (stack 0)
            ∷ ldr half (gp 0) (stack slot)
            ∷ cbnz half (gp 0) fail
            ∷ []))

-- The way out after a trap.
abbrev leave : ℕ → Label → List Call
leave frame fail = bind fail ∷ recover_x0 ∷ free frame ∷ b epilog_tag ∷ []

module _ (l : ℕ) (info : DecodeInfo) where
  -- The address of a load, into x1.
  abbrev load_address : List Call
  load_address =
      from (a64_reg info.rs1)
      ∷ mov_imm wide (gp 2) (sext 32 info.imm)
      ∷ reg3 op_add wide (gp 1) (gp 1) (gp 2)
      ∷ []
    where
      from : Option Gp → Call
      from none = ldr wide (gp 1) (xreg info.rs1)
      from (some r) = reg2 op_mov wide (gp 1) r

  -- JitEmitter::EmitLoad; the labels are `fail` and `end`.
  unfoldable pub emit_load : Chunk
  unfolding save_volatile restore_volatile
  emit_load = record {
    labels = 2;
    calls =
        save_volatile
        ++ (alloc 32
            ∷ stp (gp 29) (gp 30) (stack 0)
            ∷ (load_address
                ++ (reg2 op_mov wide (gp 0) (gp 29)
                    ∷ mov_imm wide (gp 2) info.mem_size
                    ∷ mov_symbol (gp 3) exit_trap_ptr
                    ∷ mov_symbol (gp 4) mmu_load_ptr
                    ∷ blr (gp 4)
                    ∷ str wide (gp 0) (stack 24)
                    ∷ (check_trap 16 (fresh l)
                        ++ (ldr wide (gp 0) (stack 24)
                            ∷ (select_sign_extend info.token (gp 0)
                                ++ (str wide (gp 0) (xreg info.rd)
                                    ∷ recover_x0
                                    ∷ free 32
                                    ∷ (refresh (a64_reg info.rd)
                                        ++ (b (fresh (l + 1))
                                            ∷ (leave 32 (fresh l)
                                                ++ (bind (fresh (l + 1)) ∷ [])))))))))));
  }
    where
      refresh : Option Gp → List Call
      refresh none = []
      refresh (some r) = ldr wide r (xreg info.rd) ∷ []

  -- The data of a store and its address, into the frame.
  abbrev store_operands : List Call
  store_operands =
      value (a64_reg info.rs2) ++ (address (a64_reg info.rs1) ++ (str wide (gp 0) (stack 16) ∷ []))
    where
      value : Option Gp → List Call
      value none = ldr wide (gp 0) (xreg info.rs2) ∷ str wide (gp 0) (stack 24) ∷ recover_x0 ∷ []
      value (some r) = str wide r (stack 24) ∷ []

      address : Option Gp → List Call
      address none =
          ldr wide (gp 0) (xreg info.rs1)
          ∷ mov_imm wide (gp 1) (sext 32 info.imm)
          ∷ reg3 op_add wide (gp 0) (gp 0) (gp 1)
          ∷ []
      address (some r) =
          mov_imm wide (gp 0) (sext 32 info.imm) ∷ reg3 op_add wide (gp 0) (gp 0) r ∷ []

  -- JitEmitter::EmitStore
  unfoldable pub emit_store : Chunk
  unfolding save_volatile restore_volatile
  emit_store = record {
    labels = 2;
    calls =
        save_volatile
        ++ (alloc 48
            ∷ stp (gp 29) (gp 30) (stack 0)
            ∷ (store_operands
                ++ (reg2 op_mov wide (gp 0) (gp 29)
                    ∷ ldr wide (gp 1) (stack 16)
                    ∷ mov_imm wide (gp 2) info.mem_size
                    ∷ ldr wide (gp 3) (stack 24)
                    ∷ mov_symbol (gp 4) exit_trap_ptr
                    ∷ mov_symbol (gp 5) mmu_store_ptr
                    ∷ blr (gp 5)
                    ∷ (check_trap 32 (fresh l)
                        ++ (recover_x0
                            ∷ free 48
                            ∷ b (fresh (l + 1))
                            ∷ (leave 48 (fresh l) ++ (bind (fresh (l + 1)) ∷ [])))))));
  }

-- `class JitEmitter`: the calls made so far, the labels created and the instructions counted.
pub record JitEmitter : Type 0 where
  pub code : List Call
  pub labels : ℕ
  pub delta_instret : ℕ
  pub exit_trap : Trap

-- JitEmitter::JitEmitter
unfoldable pub new_emitter : JitEmitter
new_emitter = record { code = []; labels = 0; delta_instret = 0; exit_trap = none_trap }

abbrev pub append : JitEmitter → Chunk → JitEmitter
append e c = record e { code = e.code ++ c.calls; labels = e.labels + c.labels }

-- What the switch of Emit calls; `none` is an opcode that it has no case for.
unfoldable pub emit_chunk : ℕ → DecodeInfo → Option Chunk
unfolding emit_load emit_store
emit_chunk l info =
    if info.op == op_reg
    then some (emit_reg info l)
    else if info.op == op_lui
    then some (emit_lui info)
    else if info.op == op_auipc
    then some (emit_auipc info)
    else if info.op == op_imm
    then some (emit_imm info)
    else if info.op == op_rv32
    then some (emit_reg32 info l)
    else if info.op == op_jal
    then some (emit_jal info)
    else if info.op == op_jalr
    then some (emit_jalr info)
    else if info.op == op_imm32
    then some (emit_imm32 info)
    else if info.op == op_load
    then some (emit_load l info)
    else if info.op == op_store
    then some (emit_store l info)
    else none

-- JitEmitter::Emit. An instruction is counted also where it is not emitted.
unfoldable pub emit : JitEmitter → DecodeInfo → Bool × JitEmitter
unfolding emit_chunk
emit e info =
    if info.op == 0 || is_unknown info.token then (false, e) else elim (emit_chunk e.labels info) [
      | none ↦ (false, record e { delta_instret = (e.delta_instret + 1) % 2 ^ 64 })
      | some c ↦ (true, record (append e c) { delta_instret = (e.delta_instret + 1) % 2 ^ 64 })
    ]

-- EmitProlog and EmitEpilog on the emitter; the epilog commits the count.
unfoldable pub prolog : JitEmitter → JitEmitter
unfolding emit_prolog
prolog e = append e (straight emit_prolog)

unfoldable pub epilog : JitEmitter → JitEmitter
unfolding emit_epilog
epilog e = record (append e (straight (emit_epilog e.delta_instret))) { delta_instret = 0 }
