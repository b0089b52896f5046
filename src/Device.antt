-- ===== src/Device.antt =====
-- The memory-mapped devices: include/device and src/device.
pub mod Mmio
pub mod Dram
pub mod Bus
pub mod Clint
pub mod Plic
pub mod Uart
