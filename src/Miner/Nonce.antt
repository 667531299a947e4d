-- ===== src/Miner/Nonce.antt =====
-- src/miner.cpp, `worker_thread`: the start nonce, its increment, and the 140 bytes that are hashed.
pub mod Search
mod Tests
use juno_miner.Base.{
  ℕ, ◌+◌, Option, none, some, [], ◌∷◌, ◌++◌, ◌==◌, if◌then◌else◌, length, set, take, drop,
  replicate, Bytes,
}

-- `std::copy(bytes.begin(), bytes.end(), buffer.begin() + offset)`, inside the buffer
abbrev pub copy_at : Bytes → ℕ → Bytes → Bytes
copy_at buffer offset bytes = take offset buffer ++ (bytes ++ drop (offset + length bytes) buffer)

-- 32 random bytes, or zeros where the source of randomness cannot be opened
unfoldable pub start_nonce : Option Bytes → Bytes
start_nonce random =
    let nonce : Bytes = elim random [ none ↦ replicate 32 0 | some bytes ↦ bytes ] in
    set (set (set (set nonce 0 0) 1 0) 30 0) 31 0

-- `for (int i = 0; i < 32 && carry; i++)`; the list is the nonce from `i` on.
unfoldable pub increment : Bytes → Bytes
increment [] = []
increment (b ∷ nonce) = if b == 255 then 0 ∷ increment nonce else (b + 1) ∷ nonce

-- The header without nonce, and the buffer with the nonce copied to position 108
unfoldable pub hash_input : Bytes → Bytes → Bytes
hash_input header_base nonce =
    let header_without_nonce = take 108 header_base in
    copy_at (copy_at (replicate 140 0) 0 header_without_nonce) 108 nonce
