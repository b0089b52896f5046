-- ===== src/Jit/Frame.antt =====
-- EmitMov, and EmitProlog and EmitEpilog with CommitInstret: what moves registers in and out.
use rv64_emulator.Common.{ℕ, zero, suc, ◌+◌, ◌*◌, ◌==◌, ◌||◌, if◌then◌else◌}
use rv64_emulator.Common.{List, [], ◌∷◌, ◌++◌, Option, none, some}
use rv64_emulator.Jit.Asm.{
  Gp, gp, Width, wide, Mem, xreg, instret_field, stack, epilog_tag, cpu_ptr, op_add, op_mov, Call,
  reg3, reg2, mov_imm, bind, ldr, str, ldp, stp, mov_symbol, ret,
}
use rv64_emulator.Jit.Map.{a64_reg}
use rv64_emulator.Jit.Emit.{alloc, free}

-- JitEmitter::EmitMov
unfoldable pub emit_mov : ℕ → ℕ → List Call
emit_mov rd rs = if rd == 0 || rd == rs then [] else move (a64_reg rd) (a64_reg rs)
  where
    move : Option Gp → Option Gp → List Call
    move (some d) (some s) = reg2 op_mov wide d s ∷ []
    move (some d) none = ldr wide d (xreg rs) ∷ []
    move none (some s) = str wide s (xreg rd) ∷ []
    move none none =
        alloc 16
        ∷ str wide (gp 0) (stack 0)
        ∷ ldr wide (gp 0) (xreg rs)
        ∷ str wide (gp 0) (xreg rd)
        ∷ ldr wide (gp 0) (stack 0)
        ∷ free 16
        ∷ []

-- The loop over the registers of the hart from `i` on, `n` of them: those of the host that have one.
abbrev pub each_mapped : (Width → Gp → Mem → Call) → ℕ → ℕ → List Call
each_mapped move i zero = []
each_mapped move i (suc n) = one (a64_reg i) ++ each_mapped move (suc i) n
  where
    one : Option Gp → List Call
    one none = []
    one (some r) = move wide r (xreg i) ∷ []

-- The loop over the pairs of registers of the host from `i` on.
abbrev pub each_pair : (Gp → Gp → Mem → Call) → ℕ → ℕ → List Call
each_pair move i zero = []
each_pair move i (suc n) = move (gp i) (gp (i + 1)) (stack (8 * i)) ∷ each_pair move (i + 2) n

-- JitEmitter::EmitProlog
unfoldable pub emit_prolog : List Call
emit_prolog =
    alloc 256
    ∷ (each_pair stp 0 15
        ++ (str wide (gp 30) (stack 240) ∷ mov_symbol (gp 29) cpu_ptr ∷ each_mapped ldr 0 32))

-- JitEmitter::CommitInstret
unfoldable pub commit_instret : ℕ → List Call
commit_instret delta =
    alloc 16
    ∷ stp (gp 0) (gp 1) (stack 0)
    ∷ mov_imm wide (gp 0) delta
    ∷ ldr wide (gp 1) instret_field
    ∷ reg3 op_add wide (gp 0) (gp 0) (gp 1)
    ∷ str wide (gp 0) instret_field
    ∷ ldp (gp 0) (gp 1) (stack 0)
    ∷ free 16
    ∷ []

-- JitEmitter::EmitEpilog
unfoldable pub emit_epilog : ℕ → List Call
unfolding commit_instret
emit_epilog delta =
    bind epilog_tag
    ∷ (commit_instret delta
        ++ (each_mapped str 0 32
            ++ (each_pair ldp 0 15
                ++ (ldr wide (gp 30) (stack 240) ∷ free 256 ∷ ret (gp 30) ∷ []))))
