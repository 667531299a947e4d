-- ===== src/Utils.antt =====
-- src/utils.cpp: bytes, hexadecimal texts, compact targets, block serialization, thread counts.
pub mod Numbers
pub mod Endian
pub mod Hex
pub mod Target
pub mod Varint
pub mod Block
pub mod Threads
pub mod Memory
