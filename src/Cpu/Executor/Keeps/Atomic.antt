-- ===== src/Cpu/Executor/Keeps/Atomic.antt =====
-- The A extension leaves a valid hart.
use rv64_emulator.Common.{ℕ, ◌%◌, ◌^◌, ◌<◌, arith, Bool, true, false, not, ◌==◌, if◌then◌else◌}
use rv64_emulator.Common.{some, le_bytes-AllBytes}
use rv64_emulator.Words.{sext}
use rv64_emulator.Device.Mmio.{MmioDevice}
use rv64_emulator.Device.Mmio.Laws.{HoldsBytes}
use rv64_emulator.Cpu.Trap.{load_address_misaligned}
use rv64_emulator.Cpu.Decode.Info.{DecodeInfo}
use rv64_emulator.Cpu.Hart.{Cpu, AmoReservation}
use rv64_emulator.Cpu.Hart.Valid.{
  IsValid, KeepsValid, set_xreg-IsValid, load-AccessKeeps, store-AccessKeeps,
}
use rv64_emulator.Cpu.Mmu.Keeps.{BytesOf}
use rv64_emulator.Cpu.Executor.Value.{Value, value, illegal, undefined, ill_trap}
use rv64_emulator.Cpu.Executor.Bounds.{sext_word, lr_value-lt}
use rv64_emulator.Cpu.Executor.Keeps.{IsDecoded, none_trap-lt, either, after_access, loaded-lt}
use rv64_emulator.Cpu.Executor.Atomic.{
  AmoKind, reserved_load, conditional_store, read_modify_write, amo_kind, reservation_matches,
  amo_lr_exec, amo_sc_exec, amo_write, amo_rmw_exec, amo_type_exec,
}

module _ {B : Type 0} (P : B → Type 0) (m : MmioDevice B) (laws : HoldsBytes m P) (c : Cpu B)
    (info : DecodeInfo) (v : IsValid P c) (d : IsDecoded info) where
  ill : KeepsValid P (some (ill_trap info.word, c))
  ill = (d.word_bound, v)

  -- The reservation is no part of what is kept.
  reserved : (r : AmoReservation) → IsValid P (record c { reservation = r })
  reserved r = record {
    pc_word = v.pc_word;
    instret_word = v.instret_word;
    words = v.words;
    registers = v.registers;
    unit = v.unit;
  }

  misaligned-Keeps :
      KeepsValid P (some (record { type = load_address_misaligned; val = info.pc }, c))
  misaligned-Keeps = (d.pc_bound, v)

  amo_lr_exec-Keeps : KeepsValid P (amo_lr_exec m c info)
  unfolding amo_lr_exec
  amo_lr_exec-Keeps = either P (not (c.xregs info.rs2 == 0)) _ _ ill (
      either P (not (c.xregs info.rs1 % info.mem_size == 0)) _ _ misaligned-Keeps (
        after_access P (BytesOf P info.mem_size) _ _
          (load-AccessKeeps P m laws _ (c.xregs info.rs1) info.mem_size (reserved _)
            (v.words info.rs1))
          (λ bytes c1 h v1. (
            none_trap-lt,
            set_xreg-IsValid P c1 info.rd _ v1
                (lr_value-lt info.token _ (loaded-lt P info.mem_size bytes d.size_bound h)),
          ))))

  not_stored :
      (b : Bool) (r : AmoReservation) → IsValid P (if b then record c { reservation = r } else c)
  not_stored true r = reserved r
  not_stored false r = v

  amo_sc_exec-Keeps : KeepsValid P (amo_sc_exec m c info)
  unfolding amo_sc_exec
  amo_sc_exec-Keeps =
      either P (not (c.xregs info.rs1 % info.mem_size == 0)) _ _ (d.pc_bound, v)
        (either P (reservation_matches c.reservation (c.xregs info.rs1) info.mem_size c.hart_id) _ _
          (after_access P (λ u. Unit {0}) _ _
            (store-AccessKeeps P m laws _ (c.xregs info.rs1) info.mem_size (reserved _)
              (v.words info.rs1) _ (le_bytes-AllBytes 8 (c.xregs info.rs2)))
            (λ u c1 h v1. (none_trap-lt, set_xreg-IsValid P c1 info.rd 0 v1 (omega arith))))
          (
            none_trap-lt,
            set_xreg-IsValid P _ info.rd 1 (not_stored (c.reservation.hart_id == c.hart_id) _)
                (omega arith),
          ))

  written : (b : Bool) (mem : ℕ) → mem < 2 ^ 64 → (if b then mem else sext 32 mem) < 2 ^ 64
  written true mem h = h
  written false mem h = sext_word mem

  amo_write-Keeps :
      (c1 : Cpu B) (mem : ℕ) (val : Value)
      → IsValid P c1
      → mem < 2 ^ 64
      → KeepsValid P (amo_write m c info c1 mem val)
  unfolding amo_write
  amo_write-Keeps c1 mem (value x) v1 h =
      after_access P (λ u. Unit {0}) _ _
        (store-AccessKeeps P m laws c1 (c.xregs info.rs1) info.mem_size v1 (v.words info.rs1) _
          (le_bytes-AllBytes 8 x))
        (λ u c2 k v2.
          (none_trap-lt, set_xreg-IsValid P c2 info.rd _ v2 (written (info.mem_size == 8) mem h)))
  amo_write-Keeps c1 mem illegal v1 h = (d.word_bound, v1)
  amo_write-Keeps c1 mem undefined v1 h = tt

  amo_rmw_exec-Keeps : KeepsValid P (amo_rmw_exec m c info)
  unfolding amo_rmw_exec
  amo_rmw_exec-Keeps = either P (not (c.xregs info.rs1 % info.mem_size == 0)) _ _ misaligned-Keeps (
      after_access P (BytesOf P info.mem_size) _ _
        (load-AccessKeeps P m laws c (c.xregs info.rs1) info.mem_size v (v.words info.rs1))
        (λ bytes c1 h v1.
          amo_write-Keeps c1 _ _ v1 (loaded-lt P info.mem_size bytes d.size_bound h)))

  pub amo_type_exec-Keeps : KeepsValid P (amo_type_exec m c info)
  unfolding amo_type_exec
  amo_type_exec-Keeps = by_kind (amo_kind info.token)
    where
      by_kind :
          (k : AmoKind)
          → KeepsValid P (elim k [
            | reserved_load ↦ amo_lr_exec m c info
            | conditional_store ↦ amo_sc_exec m c info
            | read_modify_write ↦ amo_rmw_exec m c info
          ])
      by_kind reserved_load = amo_lr_exec-Keeps
      by_kind conditional_store = amo_sc_exec-Keeps
      by_kind read_modify_write = amo_rmw_exec-Keeps
