-- ===== src/Libs/Util.antt =====
-- TrapToMask, InterruptBitsToTrap and CheckPcAlign of src/libs/utils.cc and include/libs/utils.h.
use rv64_emulator.Common.{ℕ, ◌^◌, List, [], ◌∷◌, Bool, bit_and, nonzero, ◌==◌, if◌then◌else◌}
use rv64_emulator.Cpu.Trap.{
  TrapType, trap_to_cause, no_trap, machine_external_interrupt, machine_software_interrupt,
  machine_timer_interrupt, supervisor_external_interrupt, supervisor_software_interrupt,
  supervisor_timer_interrupt,
}

-- TrapToMask. Every cause is below 32, so the shift of an `int` is a power of two.
unfoldable pub trap_to_mask : TrapType → ℕ
unfolding trap_to_cause
trap_to_mask no_trap = 0
trap_to_mask t = 2 ^ trap_to_cause t

-- The priority of interrupts: MEI > MSI > MTI > SEI > SSI > STI.
abbrev pub ranked_irqs : List TrapType
ranked_irqs =
    machine_external_interrupt ∷ machine_software_interrupt ∷ machine_timer_interrupt
    ∷ supervisor_external_interrupt ∷ supervisor_software_interrupt ∷ supervisor_timer_interrupt
    ∷ []

abbrev pub first_set : List TrapType → ℕ → TrapType
first_set [] bits = no_trap
first_set (t ∷ ts) bits = if nonzero (bit_and (trap_to_mask t) bits) then t else first_set ts bits

-- InterruptBitsToTrap
unfoldable pub interrupt_bits_to_trap : ℕ → TrapType
interrupt_bits_to_trap bits = first_set ranked_irqs bits

-- CheckPcAlign<CEnable>
unfoldable pub check_pc_align : Bool → ℕ → Bool
check_pc_align c_enable pc = if c_enable then bit_and pc 1 == 0 else bit_and pc 3 == 0
