-- ===== src/Crypto.antt =====
-- src/tdk/crypto: checksums, text encodings and padding.
pub mod Crc32
pub mod Base64
pub mod Padding
pub mod Stream
pub mod Md5
pub mod Sha1
