-- ===== src/Jit/Simulates.antt =====
-- The emitted code keeps the host's registers in step with the interpreter's.
use rv64_emulator.Common.{ℕ, ◌≡◌, ◌≢◌, refl, sym, ap, ◌∙◌, arith, true, false, inl, inr}
use rv64_emulator.Common.{◌==◌, ==_iff, ==_ne, ==_self, Bool-cases, Option, some}
use rv64_emulator.Words.{sext, add_wrap}
use rv64_emulator.Cpu.Trap.{none_trap}
use rv64_emulator.Cpu.Hart.{Cpu, set_xreg}
use rv64_emulator.Cpu.Decode.Table.{InstToken}
use rv64_emulator.Cpu.Decode.Info.{DecodeInfo}
use rv64_emulator.Cpu.Executor.Value.{Value, value, illegal, undefined, write_value}
use rv64_emulator.Cpu.Executor.Alu.{reg_value, imm_value, reg_type_exec, imm_type_exec}
use rv64_emulator.Jit.Asm.{Gp, gp, Chunk}
use rv64_emulator.Jit.Map.{a64_reg}
use rv64_emulator.Jit.MapLaws.{a64_reg_injective}
use rv64_emulator.Jit.Select.{select_imm, select_reg}
use rv64_emulator.Jit.Emit.{emit2, emit3, emit_imm, emit_reg}
use rv64_emulator.Jit.Machine.{Host, run, Sets, IsA64, Mirrors}
use rv64_emulator.Jit.Agrees.{imm_case, reg_case, is_direct}

gp_injective : {d k : ℕ} → some (gp d) ≡ some (gp k) → d ≡ k
gp_injective e = cc

x0_is_zero : (d : ℕ) → a64_reg 0 ≢ some (gp d)
unfolding a64_reg
x0_is_zero d e = ground arith

module _ {S B : Type 0} (h : Host S) (s s' : S) (c : Cpu B) (rd d v : ℕ)
    (at_rd : a64_reg rd ≡ some (gp d)) where
  -- Both sides write the same value to the same register.
  other : (r k : ℕ) → a64_reg r ≡ some (gp k) → (rd == r) ≡ false → k ≢ d
  other r k at_r e q =
      ground (arith, a64_reg_injective rd r d at_rd (at_r ∙ ap (λ n. some (gp n)) q))

  set-Mirrors : Sets h d v s s' → Mirrors h s c → Mirrors h s' (set_xreg c rd v)
  set-Mirrors set m r k at_r = set k ∙ elim (Bool-cases (rd == r)) [
    | inl e ↦
        let same : k ≡ d = gp_injective (sym (ap a64_reg ((==_iff rd r).0 e) ∙ at_r) ∙ at_rd) in
        rw (e, same, ==_self d) refl
    | inr e ↦ rw (e, ==_ne k d (λ q. other r k at_r e q)) (m r k at_r)
  ]

some_pair :
    {A C : Type 0} {a : A} {x y : C} → ◌≡◌ {A = Option (A × C)} (some (a, x)) (some (a, y)) → x ≡ y
some_pair e = cc

-- What an execution that ends in write_value did, if it raised no trap.
wrote :
    {B : Type 0} (c c' : Cpu B) (info : DecodeInfo) (r : Value)
    → write_value c info r ≡ some (none_trap, c')
    → (v : ℕ) × (r ≡ value v) × (c' ≡ set_xreg c info.rd v)
unfolding write_value
wrote c c' info (value v) e = (v, refl, some_pair (sym e))
wrote c c' info illegal e = cc
wrote c c' info undefined e = cc

-- Where all registers are in the host's, the code is that of the selection.
emit2_direct :
    (info : DecodeInfo) (x y : Gp) (select : Gp → Gp → Chunk)
    → a64_reg info.rd ≡ some x
    → a64_reg info.rs1 ≡ some y
    → emit2 info select ≡ select x y
emit2_direct info x y select p q = rw (emit2, p, q) refl

emit3_direct :
    (info : DecodeInfo) (x y z : Gp) (select : Gp → Gp → Gp → Chunk)
    → a64_reg info.rd ≡ some x
    → a64_reg info.rs1 ≡ some y
    → a64_reg info.rs2 ≡ some z
    → emit3 info select ≡ select x y z
emit3_direct info x y z select p q r = rw (emit3, p, q, r) refl

module _ (info : DecodeInfo) (d : ℕ) (at_rd : a64_reg info.rd ≡ some (gp d)) where
  nonzero_rd : (info.rd == 0) ≡ false
  nonzero_rd = ==_ne info.rd 0 (λ q. x0_is_zero d (ap a64_reg (sym q) ∙ at_rd))

  sources_differ : (a : ℕ) → a64_reg info.rs1 ≡ some (gp a) → info.rs1 ≢ info.rd → a ≢ d
  sources_differ a at_rs1 distinct q =
      distinct (a64_reg_injective info.rs1 info.rd a at_rs1 (at_rd ∙ ap (λ n. some (gp n)) (sym q)))

-- The immediate operations, with the two registers in distinct registers of the host: where the
-- interpreter raises no trap, the emitted code leaves the host's registers as the interpreter leaves
-- the hart's.
pub emit_imm_simulates :
    {S B : Type 0} (h : Host S) (s : S) (c c' : Cpu B) (info : DecodeInfo) (d a : ℕ)
    → IsA64 h
    → a64_reg info.rd ≡ some (gp d)
    → a64_reg info.rs1 ≡ some (gp a)
    → info.rs1 ≢ info.rd
    → Mirrors h s c
    → imm_type_exec c info ≡ some (none_trap, c')
    → Mirrors h (run h (emit_imm info).calls s) c'
unfolding imm_type_exec emit_imm
emit_imm_simulates h s c c' info d a laws at_rd at_rs1 distinct m e =
    let (v, is_value, q) = wrote c c' info (imm_value info.token (c.xregs info.rs1) info.imm) e in
    rw
      (
        q,
        nonzero_rd info d at_rd,
        emit2_direct info _ _ (λ rd rs1. select_imm rd rs1 info.imm info.token) at_rd at_rs1,
      )
      (set-Mirrors h s _ c info.rd d v at_rd
        (imm_case h laws s d a (sources_differ info d at_rd a at_rs1 distinct) info.imm info.token v
          (ap (λ x. imm_value info.token x info.imm) (m info.rs1 a at_rs1) ∙ is_value))
        m)

-- The register operations that one instruction or a comparison of the host carries out, with all
-- three registers in registers of the host, whichever coincide: where the interpreter raises no trap,
-- the emitted code leaves the host's registers as the interpreter leaves the hart's.
pub emit_reg_simulates :
    {S B : Type 0} (h : Host S) (s : S) (c c' : Cpu B) (info : DecodeInfo) (d a b l : ℕ)
    → IsA64 h
    → a64_reg info.rd ≡ some (gp d)
    → a64_reg info.rs1 ≡ some (gp a)
    → a64_reg info.rs2 ≡ some (gp b)
    → is_direct info.token ≡ true
    → Mirrors h s c
    → reg_type_exec c info ≡ some (none_trap, c')
    → Mirrors h (run h (emit_reg info l).calls s) c'
unfolding reg_type_exec emit_reg
emit_reg_simulates h s c c' info d a b l laws at_rd at_rs1 at_rs2 direct m e =
    let (v, is_value, q) =
      wrote c c' info (reg_value info.token (c.xregs info.rs1) (c.xregs info.rs2)) e in
    rw
      (
        q,
        nonzero_rd info d at_rd,
        emit3_direct info _ _ _ (λ rd rs1 rs2. select_reg l rd rs1 rs2 info.token) at_rd at_rs1
            at_rs2,
      )
      (set-Mirrors h s _ c info.rd d v at_rd
        (reg_case h laws s d a b l info.token v direct (
          ap (λ x. reg_value info.token x (h.read s b)) (m info.rs1 a at_rs1)
          ∙ (ap (reg_value info.token (c.xregs info.rs1)) (m info.rs2 b at_rs2) ∙ is_value)))
        m)

-- With rd the same as rs1 the move of the immediate destroys the source: the emitted code for ADDI
-- leaves twice the immediate in rd, whatever the register held.
pub emit_addi_in_place :
    {S : Type 0} (h : Host S) (s : S) (info : DecodeInfo) (d : ℕ)
    → IsA64 h
    → a64_reg info.rd ≡ some (gp d)
    → info.rs1 ≡ info.rd
    → info.token ≡ InstToken.addi
    → h.read (run h (emit_imm info).calls s) d ≡ add_wrap 64 (sext 32 info.imm) (sext 32 info.imm)
unfolding emit_imm select_imm
emit_addi_in_place h s info d laws at_rd same is_addi =
    rw
      (
        nonzero_rd info d at_rd,
        emit2_direct info _ _ (λ rd rs1. select_imm rd rs1 info.imm info.token) at_rd
            (ap a64_reg same ∙ at_rd),
        is_addi,
      )
      (laws.adds _ d d d d ∙ rw (==_self d, laws.moves s d (sext 32 info.imm) d, ==_self d) refl)
