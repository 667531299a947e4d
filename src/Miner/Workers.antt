-- ===== src/Miner/Workers.antt =====
-- src/miner.cpp: the worker threads of one `start_mining`, the flags that they share, `stop` and
-- `get_solution`. Each access to a shared atomic is one step, and the steps of the threads interleave in
-- any order. `hash` is `randomx_calculate_hash` on the VM of the seed.
pub mod Invariant
pub mod Nonces
mod Steps
pub mod Safety
pub mod Stopping
mod Tests
use juno_miner.Base.{
  ℕ, ◌+◌, ◌%◌, ◌^◌, ◌<◌, Bool, true, false, Option, none, some, [], ◌∷◌, ◌==◌, if◌then◌else◌, Bytes,
  ok, throws, undefined,
}
use juno_miner.Utils.Target.{hash_meets_target}
use juno_miner.Miner.Nonce.{increment, hash_input}

-- What a worker reads of the `BlockTemplate`
pub record Work : Type 0 where
  pub header_base : Bytes
  pub target : Bytes

-- The members of `Miner` that the threads share
pub record Shared : Type 0 where
  pub mining : Bool
  pub found : Bool
  pub hash_count : ℕ
  pub solution_nonce : Bytes
  pub solution_hash : Bytes
  pub solution_header : Bytes
  pub solution_template : Option Work

-- Where a worker stands: before it loads `mining_`, before it loads `found_`, before it hashes, before it
-- tests the hash, before the compare-exchange, as the winner before it stores the solution and before it
-- clears `mining_`, returned, or past an undefined access.
pub data Pc : Type 0 where
  load_mining : Bytes → Pc
  load_found : Bytes → Pc
  hashing : Bytes → Pc
  testing : Bytes → Bytes → Pc
  claiming : Bytes → Bytes → Pc
  storing : Bytes → Bytes → Pc
  signalling : Pc
  returned : Pc
  crashed : Pc

pub record System : Type 0 where
  pub shared : Shared
  pub pcs : ℕ → Pc
  pub stopped : Bool

abbrev pub update : (ℕ → Pc) → ℕ → Pc → ℕ → Pc
update pcs i pc j = if i == j then pc else pcs j

module _ (hash : Bytes → Bytes) (work : Work) where
  -- One step of `worker_thread`
  unfoldable pub advance : Shared → Pc → Shared × Pc
  advance s (load_mining nonce) = (s, if s.mining then load_found nonce else returned)
  advance s (load_found nonce) = (s, if s.found then returned else hashing nonce)
  advance s (hashing nonce) = (
    record s { hash_count = (s.hash_count + 1) % 2 ^ 64 },
    testing nonce (hash (hash_input work.header_base nonce)),
  )
  advance s (testing nonce h) = (
    s,
    elim (hash_meets_target h work.target) [
      | ok met ↦ if met then claiming nonce h else load_mining (increment nonce)
      | throws e ↦ crashed
      | undefined ↦ crashed
    ],
  )
  advance s (claiming nonce h) =
      if s.found then (s, returned) else (record s { found = true }, storing nonce h)
  advance s (storing nonce h) = (
    record s {
      solution_nonce = nonce;
      solution_hash = h;
      solution_header = hash_input work.header_base nonce;
      solution_template = some work;
    },
    signalling,
  )
  advance s signalling = (record s { mining = false }, returned)
  advance s returned = (s, returned)
  advance s crashed = (s, crashed)

  -- Worker `i` takes a step.
  unfoldable pub turn : ℕ → System → System
  turn i s =
      let (shared, pc) = advance s.shared (s.pcs i) in
      record s { shared = shared; pcs = update s.pcs i pc }

  -- The main thread runs the first line of `stop`.
  unfoldable pub halt : System → System
  halt s = record s { shared = record s.shared { mining = false }; stopped = true }

  -- `start_mining` behind its own call of `stop`; a worker that has no VM returns at once.
  unfoldable pub start_mining : (ℕ → Option Bytes) → Option Work → System
  start_mining nonces old_template = record {
    shared = record {
      mining = true;
      found = false;
      hash_count = 0;
      solution_nonce = [];
      solution_hash = [];
      solution_header = [];
      solution_template = old_template;
    };
    pcs = λ i. elim (nonces i) [ none ↦ returned | some nonce ↦ load_mining nonce ];
    stopped = false;
  }

  -- The states that `n` workers and the main thread can reach from a start
  pub data Reach (n : ℕ) (start : System) : System → Type 0 where
    begin : Reach n start start
    worker : {s : System} (i : ℕ) → i < n → Reach n start s → Reach n start (turn i s)
    main : {s : System} → Reach n start s → Reach n start (halt s)

-- `get_solution` behind its wait: the header, the hash and the template
unfoldable pub read_solution : Shared → Option (Bytes × Bytes × Option Work)
read_solution s = elim s.solution_header [
  | [] ↦ none
  | b ∷ rest ↦ if s.found then some (b ∷ rest, s.solution_hash, s.solution_template) else none
]

-- What `get_solution` does: it calls `stop`, which joins the threads, before it reads, or it reads at once.
pub data Answer : Type 0 where
  stops_first : Answer
  at_once : Option (Bytes × Bytes × Option Work) → Answer

unfoldable pub get_solution : Shared → Answer
get_solution s = if s.mining then stops_first else at_once (read_solution s)
