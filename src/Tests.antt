-- ===== src/Tests.antt =====
-- The theorems at concrete inputs.
pub mod Devices
pub mod Registers
pub mod Harts
pub mod Emitter
pub mod Containers
pub mod Products
pub mod Words
pub mod Decoding
pub mod Program
pub mod Sections
pub mod Started
pub mod Reload
pub mod Reserve
