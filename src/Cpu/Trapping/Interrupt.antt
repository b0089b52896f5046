-- ===== src/Cpu/Trapping/Interrupt.antt =====
-- Which interrupt CPU::HandleInterrupt takes.
use rv64_emulator.Common.{
  ℕ, sym, List, [], ◌∷◌, ap, ◌∙◌, ◌<◌, ◌^◌, ◌≡◌, ◌≢◌, refl, arith, true, false, Bool-cases, inl,
  inr, ◌⊎◌,
}
use rv64_emulator.Common.{if◌then◌else◌, nonzero, bit_and}
use rv64_emulator.Bits.Digit.{bit, bit-lt, bit-bit_and, bit-bit_not, bit_not}
use rv64_emulator.Bits.Mask.{bit_and-ones, bit_and-power, bit_and_comm}
use rv64_emulator.Libs.Util.{ranked_irqs, first_set, trap_to_mask, interrupt_bits_to_trap}
use rv64_emulator.Cpu.Trap.{TrapType, no_trap, is_trap, trap_to_cause}
use rv64_emulator.Cpu.Mode.{PrivilegeMode, machine, mode_eq}
use rv64_emulator.Cpu.Csr.Addr.{csr_mip, csr_mie, csr_mstatus, csr_mideleg}
use rv64_emulator.Cpu.Csr.Layout.{mie}
use rv64_emulator.Cpu.Csr.State.{State, get, read}
use rv64_emulator.Cpu.Csr.Invariant.{IsValid}
use rv64_emulator.Cpu.Trapping.{final_interrupt}

-- The bit of an interrupt in mip, mie and mideleg.
abbrev pub irq_bit : ℕ → TrapType → ℕ
irq_bit v t = bit v (trap_to_cause t)

set_of_mask : (k bits : ℕ) → nonzero (bit_and (2 ^ k) bits) ≡ true → bit bits k ≡ 1
set_of_mask k bits h =
    ground (arith, bit_and-power k bits, bit_and_comm (2 ^ k) bits, bit-lt bits k)

mask_of_trap : (t : TrapType) → trap_to_mask t ≡ (if is_trap t then 2 ^ trap_to_cause t else 0)
unfolding trap_to_mask is_trap trap_to_cause
mask_of_trap t = ground arith

never : (bits : ℕ) → nonzero (bit_and 0 bits) ≢ true
never bits h = ground (arith, bit_and_comm 0 bits, bit_and-ones 0 bits)

irq_set :
    (t : TrapType) (bits : ℕ) → nonzero (bit_and (trap_to_mask t) bits) ≡ true → irq_bit bits t ≡ 1
irq_set t bits h = elim (Bool-cases (is_trap t)) [
  | inl e ↦ set_of_mask (trap_to_cause t) bits (
      ap (λ m. nonzero (bit_and m bits))
        (sym (mask_of_trap t ∙ ap (λ b. if b then 2 ^ trap_to_cause t else 0) e))
      ∙ h)
  | inr e ↦ absurd (
      never bits (
        ap (λ m. nonzero (bit_and m bits))
          (sym (mask_of_trap t ∙ ap (λ b. if b then 2 ^ trap_to_cause t else 0) e))
        ∙ h))
]

-- The interrupt that is found has its bit set.
interrupt_bits_to_trap_set :
    (bits : ℕ)
    → interrupt_bits_to_trap bits ≢ no_trap
    → irq_bit bits (interrupt_bits_to_trap bits) ≡ 1
unfolding interrupt_bits_to_trap
interrupt_bits_to_trap_set bits ne = go ranked_irqs ne
  where
    go : (ts : List TrapType) → first_set ts bits ≢ no_trap → irq_bit bits (first_set ts bits) ≡ 1
    go [] ne = absurd (ne refl)
    go (t ∷ ts) ne = elim (Bool-cases (nonzero (bit_and (trap_to_mask t) bits))) [
      | inl e ↦ rw e (irq_set t bits e)
      | inr e ↦ rw e (go ts (λ q. ne (ap (λ b. if b then t else first_set ts bits) e ∙ q)))
    ]

-- What is asked of the interrupt that a hart takes in a mode: it is pending, enabled in mie, and in
-- M mode neither masked by mstatus.MIE nor delegated.
pub record IsTakeable (s : State) (mode : PrivilegeMode) (t : TrapType) : Type 0 where
  pub pending : irq_bit (read s csr_mip) t ≡ 1
  pub enabled : irq_bit (read s csr_mie) t ≡ 1
  pub not_masked : mode ≡ machine → get (read s csr_mstatus) mie ≡ 1
  pub not_delegated : mode ≡ machine → irq_bit (read s csr_mideleg) t ≡ 0

abbrev pub pending_bits : State → ℕ
pending_bits s = bit_and (read s csr_mip) (read s csr_mie)

abbrev pub machine_bits : State → ℕ
machine_bits s = bit_and (pending_bits s) (bit_not 64 (read s csr_mideleg))

pub cause-lt : (t : TrapType) → trap_to_cause t < 64
unfolding trap_to_cause
cause-lt t = ground arith

pending_both :
    (s : State) (k : ℕ)
    → bit (pending_bits s) k ≡ 1
    → (bit (read s csr_mip) k ≡ 1) × (bit (read s csr_mie) k ≡ 1)
pending_both s k h = ground (
  arith,
  bit-bit_and (read s csr_mip) (read s csr_mie) k,
  bit-lt (read s csr_mip) k,
  bit-lt (read s csr_mie) k,
)

machine_both :
    (s : State) (k : ℕ)
    → IsValid s
    → k < 64
    → bit (machine_bits s) k ≡ 1
    → (bit (pending_bits s) k ≡ 1) × (bit (read s csr_mideleg) k ≡ 0)
unfolding read
machine_both s k v hk h = ground (
  arith,
  bit-bit_and (pending_bits s) (bit_not 64 (s.csr csr_mideleg)) k,
  bit-bit_not 64 (s.csr csr_mideleg) k (v.words csr_mideleg) hk,
  bit-lt (pending_bits s) k,
  bit-lt (s.csr csr_mideleg) k,
)

not_machine : (mode : PrivilegeMode) → mode_eq mode machine ≡ false → mode ≢ machine
unfolding mode_eq
not_machine mode h q = ground arith

module _ (s : State) (mode : PrivilegeMode) where
  machine_takeable :
      (t : TrapType)
      → IsValid s
      → nonzero (get (read s csr_mstatus) mie) ≡ true
      → irq_bit (machine_bits s) t ≡ 1
      → IsTakeable s mode t
  machine_takeable t v h e =
      let m = machine_both s (trap_to_cause t) v (cause-lt t) e in
      let p = pending_both s (trap_to_cause t) m.0 in
      record {
        pending = p.0;
        enabled = p.1;
        not_masked = λ q. ground arith;
        not_delegated = λ q. m.1;
      }

  other_takeable :
      (t : TrapType)
      → mode_eq mode machine ≡ false
      → irq_bit (pending_bits s) t ≡ 1
      → IsTakeable s mode t
  other_takeable t h e =
      let p = pending_both s (trap_to_cause t) e in
      record {
        pending = p.0;
        enabled = p.1;
        not_masked = λ q. absurd (not_machine mode h q);
        not_delegated = λ q. absurd (not_machine mode h q);
      }

  -- The interrupt is none, or the highest of the bits that the mode considers.
  final_cases :
      (final_interrupt s mode ≡ no_trap)
      ⊎ ((nonzero (get (read s csr_mstatus) mie) ≡ true)
          × (final_interrupt s mode ≡ interrupt_bits_to_trap (machine_bits s)))
      ⊎ ((mode_eq mode machine ≡ false)
          × (final_interrupt s mode ≡ interrupt_bits_to_trap (pending_bits s)))
  unfolding final_interrupt
  final_cases = ground arith

-- An interrupt that a hart with valid registers takes is takeable in its mode.
pub final_interrupt-IsTakeable :
    (s : State) (mode : PrivilegeMode)
    → IsValid s
    → final_interrupt s mode ≢ no_trap
    → IsTakeable s mode (final_interrupt s mode)
final_interrupt-IsTakeable s mode v ne = elim (final_cases s mode) [
  | inl e ↦ absurd (ne e)
  | inr (inl (h, e)) ↦ rw e (
      machine_takeable s mode _ v h (interrupt_bits_to_trap_set (machine_bits s) (λ q. ne (e ∙ q))))
  | inr (inr (h, e)) ↦
      rw e
        (other_takeable s mode _ h (interrupt_bits_to_trap_set (pending_bits s) (λ q. ne (e ∙ q))))
]
