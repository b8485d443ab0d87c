-- ===== src/Crypto/Padding.antt =====
-- src/tdk/crypto/padding.cpp: PKCS #5 padding of a block.
pub mod Laws
mod Tests
use mathlib.Core.Option
use deprecated_tdk.Prelude.{ℕ, ◌+◌, ◌-◌, ◌%◌, ◌^◌, List, Option, none, some, get_elem?, length}
use deprecated_tdk.Buffer.Memory.{M}
use deprecated_tdk.Buffer.Block.{MemoryBlock, add_size, sub_size, pad, length_of}

-- `padding`: `aligned_size - datasz` as a `uint8_t`, at a positive `align`
pub padding_size : ℕ → ℕ → ℕ
padding_size datasz align =
    let aligned_size = add_size datasz (align - datasz % align) in
    sub_size aligned_size datasz % 2 ^ 8

-- `pkcs5( mb , datasz , align )`: as many one-byte writes of `padding` as `padding` says.
pub pkcs5_of : MemoryBlock → ℕ → ℕ → M MemoryBlock
unfolding padding_size
pkcs5_of mb datasz align = pad (padding_size datasz align) (padding_size datasz align) mb

-- `pkcs5( mb , align )`
pub pkcs5 : MemoryBlock → ℕ → M MemoryBlock
pkcs5 mb align = pkcs5_of mb (length_of mb) align

-- `pkcs5_data_size( data , datasz )`; a `datasz` that is no index of the data is out of bounds.
pub pkcs5_data_size : List ℕ → ℕ → Option ℕ
pkcs5_data_size bytes datasz = Option.map (sub_size datasz) (get_elem? bytes (sub_size datasz 1))
