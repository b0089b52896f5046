-- ===== src/Platform.antt =====
-- The main program: src/rv64_emulator.cc, include/conf.h, and LoadElf of src/libs/utils.cc.
pub mod Devices
pub mod Mounted
pub mod Loader
pub mod Terminal
pub mod Output
pub mod Main
pub mod Sections
pub mod Analyzer
pub mod Serves
pub mod Sampled
pub mod Held
pub mod Memory
pub mod Runs
pub mod Sound
pub mod Start
