-- ===== src/Lib.antt =====
-- A RISC-V emulator for RV64IMA with U, S and M mode, Sv39 translation and a small platform,
-- modelled from the C++ of the repository as built without UNIT_TEST.
--
-- A hart (`CPU`, src/cpu/cpu.cc) fetches a word through the memory management unit, decodes it and
-- runs it; a trap or an interrupt changes the mode and the control and status registers. The unit
-- and the hart reach the memory and the devices through one bus of memory-mapped devices.
--
-- - Common, Bits, Words: shared helpers. Machine words are natural numbers with the wrap-around
--   written out; Bits reads them bit by bit and has the bit-fields of C++; Words has the signed
--   operations on patterns. Bytes in memory are lists of numbers below 256.
-- - Libs.Arithmetic: include/libs/arithmetic.h, src/libs/arithmetic.cc. Libs.Util: src/libs/utils.cc.
-- - Device.Mmio, Device.Bus: include/device/mmio.hpp, src/device/bus.cc. A device is a record of its
--   operations on a state; the bus is a list of nodes over any such state.
-- - Device.Dram, Device.Clint, Device.Plic, Device.Uart: the devices of src/device. A call answers
--   `done`, `refused` (the code returns false) or `fault` (the code leaves an array).
-- - Cpu.Trap, Cpu.Mode: include/cpu/trap.h, src/cpu/trap.cc, and the modes of include/cpu/cpu.h.
-- - Cpu.Csr: `State` of include/cpu/csr.h and src/cpu/csr.cc. Addr and Layout have the constants,
--   State the operations (`read`, `write`, `reset`), Spec the masks that describe a write, View the
--   supervisor's windows, Invariant what every operation keeps.
-- - Cpu.Mmu: src/cpu/mmu.cc. Entry has the words, Sv39 the walk and the buffer, Access the three
--   accesses of a hart. The walk counts down the three levels of a table, which are all there are.
-- - Cpu.Decode: include/cpu/decode.h and src/cpu/decode.cc. Table has kInstTable, Imm the
--   immediates, Info the class DecodeInfo. Formats has the immediate formats of the manual, Pieces
--   the bits of their pieces.
-- - Cpu.Executor: src/cpu/executor.cc, a module for each group of execution functions. `exec` in
--   Dispatch is Executor::Exec. Loads has the bits that each load gives by the architecture, Reload a
--   store and then a load of the same address, over devices
--   that remember, as the bus of Platform.Memory does in the window of the memory. Reserve is LR
--   and the SC that follows it.
-- - Cpu.Hart, Cpu.Trapping, Cpu.Tick: src/cpu/cpu.cc. `handle_trap` is CPU::HandleTrap,
--   `handle_interrupt` is CPU::HandleInterrupt, `tick` is CPU::Tick.
-- - Libs.Lru: include/libs/lru.hpp. The index is a function from keys to identities of nodes.
-- - Jit: src/jit/jit.cc, which translates decoded instructions for an AArch64 host. Asm has the calls
--   of the assembler as data, Map the tables of registers, Select the choice of instructions; Emit,
--   Jumps, Frame and Access have the functions that emit. Machine is a host that runs the calls, a
--   parameter with the documented effect of each instruction as its laws.
-- - Platform: the program. Devices, Terminal and Main are src/rv64_emulator.cc and include/conf.h,
--   Runs its threads as steps in any order, Loader and Sections are LoadElf and CheckSectionExist of
--   src/libs/utils.cc. Sound and Start follow the whole program from its start. Analyzer is the tool
--   tools/rv_analyzer/rv_analyzer.cc; its FirstRow tells the row of a word by the bits that the rows
--   fix, Counts and Totals what is counted.
-- - Tests: runs at concrete inputs.
--
-- `none` as a result of the hart is behaviour that C++ leaves undefined, such as a shift by the width
-- or a read outside kAccessMemBytes. Two loops run on fuel: the
-- one that drains the serial port has the number of characters to send, of which each round takes
-- one, and the one of the analyzer has the number of bytes of the section, of which each round takes
-- at least two. The guest's time stamp is an argument. The registers of the hart and of its control
-- block are functions from numbers. A round of the loop of main is one step of Runs: a character or a
-- signal comes between two rounds, not within one.
--
-- Not modelled: the assembler and the ELF reader, which other projects provide and whose answers are
-- parameters; the settings of the terminal; the floating-point registers, which are only cleared;
-- and statistics that are only printed.
pub mod Common
pub mod Bits
pub mod Words
pub mod Libs
pub mod Device
pub mod Cpu
pub mod Jit
pub mod Platform
pub mod Tests
