-- ===== src/Cpu/Decode.antt =====
-- Instruction decoding: include/cpu/decode.h and src/cpu/decode.cc.
pub mod Table
pub mod Rows
pub mod Imm
pub mod Info
pub mod Sizes
pub mod Pieces
pub mod Formats
