-- ===== src/Cpu/Executor.antt =====
-- `class Executor`: include/cpu/executor.h and src/cpu/executor.cc, as built without UNIT_TEST.
pub mod Value
pub mod Alu
pub mod Multiply
pub mod Divide
pub mod Bounds
pub mod Keeps
pub mod Loads
pub mod Reload
pub mod Reserve
pub mod Branch
pub mod Memory
pub mod System
pub mod Atomic
pub mod Dispatch
