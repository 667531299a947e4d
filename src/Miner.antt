-- ===== src/Miner.antt =====
-- src/miner.cpp and src/miner.h: seed heights, nonces, worker threads, RandomX resources.
pub mod Seed
pub mod Nonce
pub mod Workers
pub mod Numa
