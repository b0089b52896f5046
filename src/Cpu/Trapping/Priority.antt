-- ===== src/Cpu/Trapping/Priority.antt =====
-- The order in which CPU::HandleInterrupt takes interrupts.
use mathlib.Core.Path.{subst}
use native.Mathlib.Nat.{one-le-pow}
use rv64_emulator.Common.{
  ◌*◌, false, Bool-cases, ℕ, ◌<◌, ◌≤◌, ◌^◌, ◌≡◌, ◌≢◌, refl, sym, ap, arith, true, inl, inr,
}
use rv64_emulator.Common.{bit_and, nonzero}
use rv64_emulator.Bits.Digit.{bit, bit-bit_and, bit_not, bit-bit_not}
use rv64_emulator.Bits.Mask.{bit_and-power, bit_and_comm}
use rv64_emulator.Libs.Util.{trap_to_mask, interrupt_bits_to_trap}
use rv64_emulator.Cpu.Trap.{
  TrapType, no_trap, trap_to_cause, machine_external_interrupt, machine_software_interrupt,
  machine_timer_interrupt, supervisor_external_interrupt, supervisor_software_interrupt,
  supervisor_timer_interrupt,
}
use rv64_emulator.Cpu.Mode.{PrivilegeMode, user, supervisor, reserved, machine, mode_eq}
use rv64_emulator.Cpu.Csr.State.{State, read}
use rv64_emulator.Cpu.Csr.Addr.{csr_mideleg}
use rv64_emulator.Cpu.Csr.Invariant.{IsValid}
use rv64_emulator.Cpu.Trapping.{final_interrupt}
use rv64_emulator.Cpu.Trapping.Interrupt.{irq_bit, IsTakeable, pending_bits, machine_bits, cause-lt}

-- The place of an interrupt in the order of the architecture; the others come last.
abbrev pub rank : TrapType → ℕ
rank machine_external_interrupt = 0
rank machine_software_interrupt = 1
rank machine_timer_interrupt = 2
rank supervisor_external_interrupt = 3
rank supervisor_software_interrupt = 4
rank supervisor_timer_interrupt = 5
rank _ = 6

power_set : (k bits : ℕ) → bit bits k ≡ 1 → nonzero (bit_and (2 ^ k) bits) ≡ true
power_set k bits h =
    ground (
      arith,
      bit_and_comm (2 ^ k) bits,
      bit_and-power k bits,
      ap (λ b. b * 2 ^ k) h,
      one-le-pow k 2,
    )

first_ranked :
    (bits : ℕ) (u : TrapType)
    → rank u < 6
    → irq_bit bits u ≡ 1
    → rank (interrupt_bits_to_trap bits) ≤ rank u
unfolding interrupt_bits_to_trap trap_to_mask trap_to_cause
first_ranked bits machine_external_interrupt h e = ground (arith, power_set 11 bits e)
first_ranked bits machine_software_interrupt h e = ground (arith, power_set 3 bits e)
first_ranked bits machine_timer_interrupt h e = ground (arith, power_set 7 bits e)
first_ranked bits supervisor_external_interrupt h e = ground (arith, power_set 9 bits e)
first_ranked bits supervisor_software_interrupt h e = ground (arith, power_set 1 bits e)
first_ranked bits supervisor_timer_interrupt h e = ground (arith, power_set 5 bits e)
first_ranked bits _ h e = absurd (omega arith)

bit_both : (a b k : ℕ) → bit a k ≡ 1 → bit b k ≡ 1 → bit (bit_and a b) k ≡ 1
bit_both a b k h e = ground (arith, bit-bit_and a b k)

is_pending :
    (s : State) (mode : PrivilegeMode) (u : TrapType)
    → IsTakeable s mode u
    → irq_bit (pending_bits s) u ≡ 1
is_pending s mode u t = bit_both _ _ (trap_to_cause u) t.pending t.enabled

is_machine :
    (s : State) (u : TrapType) → IsValid s → IsTakeable s machine u → irq_bit (machine_bits s) u ≡ 1
unfolding read
is_machine s u v t =
    bit_both (pending_bits s) (bit_not 64 (read s csr_mideleg)) (trap_to_cause u)
      (is_pending s machine u t)
      (ground (
        arith,
        bit-bit_not 64 (s.csr csr_mideleg) (trap_to_cause u) (v.words csr_mideleg) (cause-lt u),
        t.not_delegated refl,
      ))

taken_in_machine :
    (s : State)
    → final_interrupt s machine ≢ no_trap
    → final_interrupt s machine ≡ interrupt_bits_to_trap (machine_bits s)
unfolding final_interrupt mode_eq
taken_in_machine s ne = ground arith

taken_below :
    (s : State) (mode : PrivilegeMode)
    → mode_eq mode machine ≡ false
    → final_interrupt s mode ≢ no_trap
    → final_interrupt s mode ≡ interrupt_bits_to_trap (pending_bits s)
unfolding final_interrupt
taken_below s mode e ne = ground arith

is_machine_mode : (mode : PrivilegeMode) → mode_eq mode machine ≡ true → mode ≡ machine
unfolding mode_eq
is_machine_mode machine e = refl
is_machine_mode user e = ground arith
is_machine_mode supervisor e = ground arith
is_machine_mode reserved e = ground arith

-- Of the six interrupts of M and S mode that are takeable, the one that a hart with valid registers
-- takes is the first in the order of the architecture.
pub final_interrupt_first :
    (s : State) (mode : PrivilegeMode) (u : TrapType)
    → IsValid s
    → rank u < 6
    → IsTakeable s mode u
    → final_interrupt s mode ≢ no_trap
    → rank (final_interrupt s mode) ≤ rank u
final_interrupt_first s mode u v h t ne = elim (Bool-cases (mode_eq mode machine)) [
  | inl e ↦
      subst
        (λ m.
          IsTakeable s m u → final_interrupt s m ≢ no_trap → rank (final_interrupt s m) ≤ rank u)
        (sym (is_machine_mode mode e))
        (λ t' ne'.
          rw (taken_in_machine s ne') (first_ranked (machine_bits s) u h (is_machine s u v t')))
        t ne
  | inr e ↦ rw (taken_below s mode e ne) (first_ranked (pending_bits s) u h (is_pending s mode u t))
]
