-- ===== src/Buffer.antt =====
-- src/tdk/buffer: reference-counted memory, and the block with a read and a write position over it.
pub mod Memory
pub mod Base
pub mod Block
