-- ===== src/Device/Mmio.antt =====
-- `class MmioDevice` and `MmioDeviceNode` of include/device/mmio.hpp. A load may change the device
-- (a claim register does), so it returns the device beside the bytes.
pub mod Laws
use rv64_emulator.Common.{ℕ, List, Access}

pub record MmioDevice (D : Type 0) : Type 0 where
  pub load : D → ℕ → ℕ → Access (List ℕ × D)
  pub store : D → ℕ → ℕ → List ℕ → Access D
  pub reset : D → D

pub record MmioDeviceNode (D : Type 0) : Type 0 where
  pub base : ℕ
  pub size : ℕ
  pub dev : D
