-- ===== src/Bits.antt =====
-- Laws of the bit operations that the library's code uses on machine words: `^`, `|`, `&`.
mod Step
pub mod Xor
pub mod Fields
