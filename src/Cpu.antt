-- ===== src/Cpu.antt =====
-- The hart: include/cpu and src/cpu.
pub mod Trap
pub mod Mode
pub mod Csr
pub mod Mmu
pub mod Hart
pub mod Trapping
pub mod Decode
pub mod Executor
pub mod Tick
