-- ===== src/Jit.antt =====
-- `class JitEmitter`: include/jit/jit.hh and src/jit/jit.cc. The assembler is asmjit, which is not in
-- the repository: what the emitter asks of it is the sequence of its calls.
pub mod Asm
pub mod Map
pub mod Select
pub mod Emit
pub mod Jumps
pub mod Frame
pub mod Access
pub mod Machine
pub mod MapLaws
pub mod Agrees
pub mod Simulates
