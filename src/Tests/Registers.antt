-- ===== src/Tests/Registers.antt =====
-- Runs of the control and status registers.
use rv64_emulator.Common.{◌≡◌, refl, arith, inl, inr}
use rv64_emulator.Bits.Digit.{bit}
use rv64_emulator.Cpu.Csr.Addr.{csr_mie, csr_sie}
use rv64_emulator.Cpu.Csr.State.{write, new_state}
use rv64_emulator.Cpu.Csr.Spec.{write_bits}
use rv64_emulator.Cpu.Csr.View.{view_isolates}

write_bits_example : bit ((write new_state csr_mie 0xfff).csr csr_mie) 1 ≡ 1
write_bits_example = write_bits new_state csr_mie 0xfff csr_mie 1 (omega arith) (omega arith)

view_isolates_example :
    bit ((write new_state csr_sie 0xfff).csr csr_mie) 3 ≡ bit (new_state.csr csr_mie) 3
view_isolates_example =
    view_isolates new_state csr_sie 0xfff csr_mie 3 (inr (inl refl)) (omega arith) (λ _. refl)
