-- ===== src/Cpu/Csr.antt =====
-- The control and status registers: include/cpu/csr.h and src/cpu/csr.cc.
pub mod Addr
pub mod Layout
pub mod State
mod Cases
pub mod Spec
pub mod Invariant
pub mod View
