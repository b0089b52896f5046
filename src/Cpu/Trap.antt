-- ===== src/Cpu/Trap.antt =====
-- Traps: include/cpu/trap.h and src/cpu/trap.cc.
use rv64_emulator.Common.{ℕ, ◌+◌, ◌*◌, ◌/◌, ◌%◌, ◌^◌, Bool, leb, bit_and}

-- `enum class TrapType`, in its order; `no_trap` is kNone.
pub data TrapType : Type 0 where
  instruction_address_misaligned instruction_access_fault illegal_instruction : TrapType
  breakpoint : TrapType
  load_address_misaligned load_access_fault : TrapType
  store_address_misaligned store_access_fault : TrapType
  environment_call_from_u_mode environment_call_from_s_mode : TrapType
  environment_call_from_m_mode : TrapType
  instruction_page_fault load_page_fault store_page_fault : TrapType
  user_software_interrupt supervisor_software_interrupt machine_software_interrupt : TrapType
  user_timer_interrupt supervisor_timer_interrupt machine_timer_interrupt : TrapType
  user_external_interrupt supervisor_external_interrupt machine_external_interrupt : TrapType
  no_trap : TrapType

-- The enumerator's value, by which the code compares trap types.
unfoldable pub trap_index : TrapType → ℕ
trap_index instruction_address_misaligned = 0
trap_index instruction_access_fault = 1
trap_index illegal_instruction = 2
trap_index breakpoint = 3
trap_index load_address_misaligned = 4
trap_index load_access_fault = 5
trap_index store_address_misaligned = 6
trap_index store_access_fault = 7
trap_index environment_call_from_u_mode = 8
trap_index environment_call_from_s_mode = 9
trap_index environment_call_from_m_mode = 10
trap_index instruction_page_fault = 11
trap_index load_page_fault = 12
trap_index store_page_fault = 13
trap_index user_software_interrupt = 14
trap_index supervisor_software_interrupt = 15
trap_index machine_software_interrupt = 16
trap_index user_timer_interrupt = 17
trap_index supervisor_timer_interrupt = 18
trap_index machine_timer_interrupt = 19
trap_index user_external_interrupt = 20
trap_index supervisor_external_interrupt = 21
trap_index machine_external_interrupt = 22
trap_index no_trap = 23

-- kTrapToCauseTable. The table has no entry for kNone: its readers test for that first.
unfoldable pub trap_to_cause : TrapType → ℕ
trap_to_cause instruction_address_misaligned = 0
trap_to_cause instruction_access_fault = 1
trap_to_cause illegal_instruction = 2
trap_to_cause breakpoint = 3
trap_to_cause load_address_misaligned = 4
trap_to_cause load_access_fault = 5
trap_to_cause store_address_misaligned = 6
trap_to_cause store_access_fault = 7
trap_to_cause environment_call_from_u_mode = 8
trap_to_cause environment_call_from_s_mode = 9
trap_to_cause environment_call_from_m_mode = 11
trap_to_cause instruction_page_fault = 12
trap_to_cause load_page_fault = 13
trap_to_cause store_page_fault = 15
trap_to_cause user_software_interrupt = 0
trap_to_cause supervisor_software_interrupt = 1
trap_to_cause machine_software_interrupt = 3
trap_to_cause user_timer_interrupt = 4
trap_to_cause supervisor_timer_interrupt = 5
trap_to_cause machine_timer_interrupt = 7
trap_to_cause user_external_interrupt = 8
trap_to_cause supervisor_external_interrupt = 9
trap_to_cause machine_external_interrupt = 11
trap_to_cause no_trap = 0

-- `trap.type >= kUserSoftwareInterrupt`
unfoldable pub is_interrupt : TrapType → Bool
unfolding trap_index
is_interrupt t = leb 14 (trap_index t)

pub record Trap : Type 0 where
  pub type : TrapType
  pub val : ℕ

-- kNoneTrap
abbrev pub none_trap : Trap
none_trap = record { type = no_trap; val = 0 }

-- `type != kNone`
unfoldable pub is_trap : TrapType → Bool
unfolding trap_index
is_trap no_trap = Bool.false
is_trap _ = Bool.true

-- GetTrapPC, on uint64_t. The mode is the low two bits of the vector register.
unfoldable pub get_trap_pc : ℕ → ℕ → ℕ
get_trap_pc tvec_val cause =
    let mode = bit_and tvec_val 0x3 in (tvec_val / 2 ^ 2 * 2 ^ 2 + 4 * cause * mode) % 2 ^ 64
