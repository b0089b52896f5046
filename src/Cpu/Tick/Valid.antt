-- ===== src/Cpu/Tick/Valid.antt =====
-- A step of the hart keeps it valid.
use mathlib.Core.Path.{subst}
use rv64_emulator.Common.{
  ℕ, ◌^◌, ◌<◌, ◌≡◌, ◌≢◌, refl, ap, arith, Bool, true, false, nonzero, of_bool, if◌then◌else◌,
}
use rv64_emulator.Common.{Option, none, some, of_le_bytes-lt}
use rv64_emulator.Bits.Bounds.{set_field-lt}
use rv64_emulator.Bits.Fields.{field, set_field}
use rv64_emulator.Words.{add_wrap}
use rv64_emulator.Device.Mmio.{MmioDevice}
use rv64_emulator.Device.Mmio.Laws.{HoldsBytes}
use rv64_emulator.Cpu.Trap.{Trap, illegal_instruction}
use rv64_emulator.Cpu.Csr.Addr.{csr_mip, csr_minstret}
use rv64_emulator.Cpu.Csr.State.{read, write, get_wfi, set_wfi}
use rv64_emulator.Cpu.Csr.Invariant.{write-IsValid, read-lt, set_wfi-IsValid}
use rv64_emulator.Cpu.Decode.Table.{InstToken, get_token}
use rv64_emulator.Cpu.Decode.Info.{DecodeInfo, decode, mem_size_of, imm_of}
use rv64_emulator.Cpu.Decode.Sizes.{mem_size_of-le}
use rv64_emulator.Cpu.Mmu.Keeps.{BytesOf}
use rv64_emulator.Cpu.Hart.{Cpu}
use rv64_emulator.Cpu.Hart.Valid.{
  IsValid, KeepsValid, set_xreg-IsValid, set_pc-IsValid, set_state-IsValid, fetch-AccessKeeps,
}
use rv64_emulator.Cpu.Trapping.{handle_trap, handle_interrupt}
use rv64_emulator.Cpu.Trapping.Keeps.{handle_trap-IsValid, handle_interrupt-IsValid}
use rv64_emulator.Cpu.Executor.Dispatch.{exec}
use rv64_emulator.Cpu.Executor.Keeps.{IsDecoded, none_trap-lt, either, after_access}
use rv64_emulator.Cpu.Executor.Keeps.Dispatch.{exec-Keeps}
use rv64_emulator.Cpu.Tick.{
  Lines, mip_word, set_lines, wait, run_word, tick_operate, finish, tick, is_unknown, clear_x0,
}
use rv64_emulator.Cpu.Tick.Zero.{tick_x0}

put_bit-lt : (v lo x : ℕ) → lo < 64 → v < 2 ^ 64 → set_field v lo 1 x < 2 ^ 64
put_bit-lt v lo x h k = set_field-lt v lo 1 x k (omega arith)

mip_word-lt : (l : Lines) (v : ℕ) → v < 2 ^ 64 → mip_word l v < 2 ^ 64
unfolding mip_word
mip_word-lt l v h = put_bit-lt _ 7 (of_bool l.mtip) (omega arith) (
    put_bit-lt _ 3 (of_bool l.msip) (omega arith) (
      put_bit-lt _ 9 (of_bool l.seip) (omega arith)
        (put_bit-lt v 11 (of_bool l.meip) (omega arith) h)))

-- What `decode` builds where the width of the access is known.
abbrev decoded : ℕ → ℕ → ℕ → DecodeInfo
decoded word pc size = record {
  word = word;
  op = field word 0 7;
  rd = field word 7 5;
  rs1 = field word 15 5;
  rs2 = field word 20 5;
  pc = pc;
  imm = imm_of (field word 0 7) (get_token word) word;
  token = get_token word;
  size = 4;
  mem_size = size;
}

known_token : (t : InstToken) → is_unknown t ≡ false → t ≢ InstToken.unknown
unfolding is_unknown
known_token t h e = let unknown : is_unknown t ≡ true = ap is_unknown e in cc

decoded-IsDecoded :
    (word pc size : ℕ)
    → word < 2 ^ 64
    → pc < 2 ^ 64
    → mem_size_of (field word 0 7) (get_token word) word ≡ some size
    → is_unknown (get_token word) ≡ false
    → IsDecoded (decoded word pc size)
decoded-IsDecoded word pc size h k sized known = record {
  word_bound = h;
  pc_bound = k;
  rs1_bound = omega arith;
  size_bound = mem_size_of-le word (known_token (get_token word) known) sized;
}

module _ {B : Type 0} (P : B → Type 0) where
  set_lines-IsValid : (l : Lines) (c : Cpu B) → IsValid P c → IsValid P (set_lines l c)
  unfolding set_lines
  set_lines-IsValid l c v = updated l.update
    where
      updated :
          (b : Bool)
          → IsValid P (
              if b
              then record c { state = write c.state csr_mip (mip_word l (read c.state csr_mip)) }
              else c)
      updated true = set_state-IsValid P c _ v (
          write-IsValid c.state csr_mip _ v.registers
            (mip_word-lt l _ (read-lt c.state csr_mip v.registers)))
      updated false = v

  wait-IsValid : (c : Cpu B) → IsValid P c → IsValid P (wait c)
  unfolding wait
  wait-IsValid c v = woken (nonzero _)
    where
      woken : (b : Bool) → IsValid P (if b then record c { state = set_wfi c.state false } else c)
      woken true = set_state-IsValid P c _ v (set_wfi-IsValid c.state false v.registers)
      woken false = v

  finish-IsValid :
      (epc : ℕ) (t : Trap) (c : Cpu B)
      → epc < 2 ^ 64
      → t.val < 2 ^ 64
      → IsValid P c
      → IsValid P (finish epc t c)
  unfolding finish
  finish-IsValid epc t c h k v = counted interrupted
    where
      c1 : Cpu B
      c1 = handle_trap c t epc

      c1-IsValid : IsValid P c1
      c1-IsValid = handle_trap-IsValid P c t epc v k h

      c2 : Cpu B
      c2 = handle_interrupt c1 c1.pc

      interrupted : IsValid P c2
      interrupted = handle_interrupt-IsValid P c1 c1.pc c1-IsValid c1-IsValid.pc_word

      counted :
          IsValid P c2
          → IsValid P (record c2 {
            instret = add_wrap 64 c2.instret 1;
            state = write c2.state csr_minstret (add_wrap 64 c2.instret 1);
          })
      counted v2 = record {
        pc_word = v2.pc_word;
        instret_word = omega arith;
        words = v2.words;
        registers = write-IsValid c2.state csr_minstret _ v2.registers (omega arith);
        unit = v2.unit;
      }

  module _ (m : MmioDevice B) (laws : HoldsBytes m P) (now : ℕ) (z : now < 2 ^ 64) where
    cleared :
        (r : Option (Trap × Cpu B))
        → KeepsValid P r
        → KeepsValid P (elim r [ none ↦ none | some (t, c1) ↦ some (t, clear_x0 c1) ])
    cleared none h = tt
    cleared (some (t, c1)) h = (h.0, set_xreg-IsValid P c1 0 0 h.1 (omega arith))

    run_word-Keeps :
        (c : Cpu B) (word : ℕ) → IsValid P c → word < 2 ^ 64 → KeepsValid P (run_word m now c word)
    unfolding run_word decode
    run_word-Keeps c word v h =
        by_size (mem_size_of (field word 0 7) (get_token word) word)
          (λ size e. decoded-IsDecoded word c.pc size h v.pc_word e)
      where
        next : Cpu B
        next = record c { pc = add_wrap 64 c.pc 4 }

        next-IsValid : IsValid P next
        next-IsValid = set_pc-IsValid P c _ v (omega arith)

        by_token :
            (size : ℕ) (b : Bool)
            → (b ≡ false → IsDecoded (decoded word c.pc size))
            → KeepsValid P (
                if b
                then some (record { type = illegal_instruction; val = word }, next)
                else elim (exec m now next (decoded word c.pc size)) [
                  | none ↦ none
                  | some (t, c1) ↦ some (t, clear_x0 c1)
                ])
        by_token size true d = (h, next-IsValid)
        by_token size false d =
            cleared _
              (exec-Keeps P m laws now next (decoded word c.pc size) z next-IsValid (d refl))

        by_size :
            (o : Option ℕ)
            → ((size : ℕ)
                → o ≡ some size
                → is_unknown (get_token word) ≡ false
                → IsDecoded (decoded word c.pc size))
            → KeepsValid P
                (elim (elim o as (λ x. Option DecodeInfo) [
                  | none ↦ none
                  | some size ↦ some (decoded word c.pc size)
                ]) [
                  | none ↦ none
                  | some info ↦
                      if is_unknown info.token
                      then some (
                        record { type = illegal_instruction; val = word },
                        record c { pc = add_wrap 64 c.pc info.size },
                      )
                      else elim (exec m now (record c { pc = add_wrap 64 c.pc info.size }) info) [
                        | none ↦ none
                        | some (t, c1) ↦ some (t, clear_x0 c1)
                      ]
                ])
        by_size none d = tt
        by_size (some size) d = by_token size (is_unknown (get_token word)) (d size refl)

    tick_operate-Keeps : (c : Cpu B) → IsValid P c → KeepsValid P (tick_operate m now c)
    unfolding tick_operate
    tick_operate-Keeps c v =
        either P (get_wfi c.state) _ _ (none_trap-lt, wait-IsValid c v)
          (after_access P (BytesOf P 4) _ _ (fetch-AccessKeeps P m laws c c.pc 4 v v.pc_word)
            (λ bytes c1 h v1.
              run_word-Keeps c1 _ v1 (omega (arith, of_le_bytes-lt 4 bytes h.0 (omega arith)))))

    abbrev AfterTick : Option (Cpu B) → Type 0
    AfterTick none = Unit {0}
    AfterTick (some c1) = IsValid P c1

    tick_keeps : (l : Lines) (c : Cpu B) → IsValid P c → AfterTick (tick m now l c)
    unfolding tick
    tick_keeps l c v = finished (tick_operate m now c0) (tick_operate-Keeps c0 v0)
      where
        c0 : Cpu B
        c0 = set_lines l c

        v0 : IsValid P c0
        v0 = set_lines-IsValid l c v

        finished :
            (r : Option (Trap × Cpu B))
            → KeepsValid P r
            → AfterTick (elim r [ none ↦ none | some (t, c1) ↦ some (finish c0.pc t c1) ])
        finished none h = tt
        finished (some (t, c1)) h = finish-IsValid c0.pc t c1 v0.pc_word h.0 h.1

-- Over devices that hold bytes, a step of a valid hart leaves a valid hart: the program counter, the
-- retired instructions and the registers are words, the control registers and the translation buffer
-- are valid, the devices are still as their law says, and x0 stays zero if it was.
pub tick-IsValid :
    {B : Type 0} (P : B → Type 0) (m : MmioDevice B) (now : ℕ) (l : Lines) (c c1 : Cpu B)
    → HoldsBytes m P
    → now < 2 ^ 64
    → IsValid P c
    → tick m now l c ≡ some c1
    → IsValid P c1 × (c.xregs 0 ≡ 0 → c1.xregs 0 ≡ 0)
tick-IsValid P m now l c c1 laws z v e = (
  subst (AfterTick P m laws now z) e (tick_keeps P m laws now z l c v),
  λ h. tick_x0 m now l c c1 h e,
)
