-- ===== src/Bits.antt =====
-- Words as numbers: bits, the operations `&`, `|` and `^`, and bit-fields.
mod Step
pub mod Digit
pub mod Fields
pub mod Copy
pub mod Mask
pub mod Bounds
pub mod Sign
