-- ===== src/Cpu/Mmu.antt =====
-- Address translation: include/cpu/mmu.h and src/cpu/mmu.cc.
pub mod Entry
pub mod Sv39
pub mod Access
pub mod Keeps
