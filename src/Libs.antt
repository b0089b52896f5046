-- ===== src/Libs.antt =====
-- Helpers of the program: include/libs and src/libs.
pub mod Arithmetic
pub mod Util
pub mod Lru
