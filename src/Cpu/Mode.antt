-- ===== src/Cpu/Mode.antt =====
-- `enum class PrivilegeMode` of include/cpu/cpu.h.
use rv64_emulator.Common.{ℕ, Bool, ltb, ◌==◌, if◌then◌else◌}

pub data PrivilegeMode : Type 0 where
  user supervisor reserved machine : PrivilegeMode

unfoldable pub mode_index : PrivilegeMode → ℕ
mode_index user = 0
mode_index supervisor = 1
mode_index reserved = 2
mode_index machine = 3

-- The cast from a field of two bits.
unfoldable pub mode_of : ℕ → PrivilegeMode
mode_of n =
    if n == 0 then user else if n == 1 then supervisor else if n == 2 then reserved else machine

unfoldable pub mode_lt : PrivilegeMode → PrivilegeMode → Bool
unfolding mode_index
mode_lt a b = ltb (mode_index a) (mode_index b)

unfoldable pub mode_eq : PrivilegeMode → PrivilegeMode → Bool
unfolding mode_index
mode_eq a b = mode_index a == mode_index b
