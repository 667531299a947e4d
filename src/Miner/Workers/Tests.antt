-- ===== src/Miner/Workers/Tests.antt =====
-- Two workers on a template that every hash meets, and the theorems at states that they reach.
use juno_miner.Base.{
  ℕ, zero, suc, ◌≡◌, refl, Option, none, some, [], ◌∷◌, arith, ◌==◌, if◌then◌else◌, replicate,
  Bytes, ok, throws, undefined,
}
use juno_miner.Utils.Target.{hash_meets_target}
use juno_miner.Utils.Endian.{read_le32}
use juno_miner.Miner.Nonce.{increment, hash_input}
use juno_miner.Miner.Workers.{
  Work, hashing, returned, System, halt, start_mining, Reach, begin, worker, get_solution, at_once,
  read_solution, claiming, load_mining, crashed,
}
use juno_miner.Miner.Workers.Safety.{IsSolution, IsSolution-after_join, IsSolution-without_join}
use juno_miner.Miner.Workers.Stopping.{FillsBytes32, run, stop_returns, returns_while_hashing}

abbrev zeros32 : Bytes
zeros32 = replicate 32 0

abbrev zero_hash : Bytes → Bytes
zero_hash input = zeros32

abbrev work : Work
work = record { header_base = replicate 140 1; target = replicate 32 255 }

abbrev nonces : ℕ → Option Bytes
nonces i = some zeros32

abbrev start : System
start = start_mining zero_hash work nonces none

-- Worker 1 hashes and worker 0 is about to claim.
abbrev racing : System
racing = run zero_hash work (1 ∷ 1 ∷ 0 ∷ 0 ∷ 0 ∷ 0 ∷ []) start

racing-Reach : Reach zero_hash work 2 start racing
unfolding run
racing-Reach = worker 0 (omega arith) (
    worker 0 (omega arith) (
      worker 0 (omega arith)
        (worker 0 (omega arith) (worker 1 (omega arith) (worker 1 (omega arith) begin)))))

returns_while_hashing_example :
    let t = run zero_hash work (0 ∷ 0 ∷ 0 ∷ []) racing in
    Reach zero_hash work 2 start t
    × (get_solution t.shared
        ≡ at_once (some (hash_input (replicate 140 1) zeros32, zeros32, some work)))
    × (t.pcs 1 ≡ hashing zeros32)
    × ((run zero_hash work (1 ∷ 1 ∷ []) t).pcs 1 ≡ elim (hash_meets_target zeros32 work.target) [
      | ok met ↦ if met then claiming zeros32 zeros32 else load_mining (increment zeros32)
      | throws e ↦ crashed
      | undefined ↦ crashed
    ])
unfolding run start_mining hash_meets_target read_le32
returns_while_hashing_example =
    returns_while_hashing zero_hash work 0 1 zeros32 zeros32 zeros32 racing-Reach (omega arith)
      (λ e. absurd (omega arith)) refl refl refl refl

fills : FillsBytes32 zero_hash work
fills = record { hashes = λ input. (omega arith, refl); target = (omega arith, refl) }

stop_returns_example :
    (run zero_hash work (1 ∷ 1 ∷ 1 ∷ 0 ∷ 1 ∷ 1 ∷ 1 ∷ []) (halt zero_hash work racing)).pcs 1
    ≡ returned
stop_returns_example =
    stop_returns zero_hash work nonces none fills racing-Reach (1 ∷ 1 ∷ 1 ∷ 0 ∷ 1 ∷ 1 ∷ 1 ∷ []) 1
      (omega arith) (omega arith)

-- Worker 0 has won and signalled; worker 1 still runs.
abbrev won : System
won = run zero_hash work (0 ∷ 0 ∷ 0 ∷ []) racing

won-Reach : Reach zero_hash work 2 start won
won-Reach = returns_while_hashing_example.0

IsSolution-without_join_example :
    (result : Bytes × Bytes × Option Work) × (get_solution won.shared ≡ at_once (some result))
    × IsSolution zero_hash work result
unfolding run start_mining hash_meets_target read_le32
IsSolution-without_join_example =
    IsSolution-without_join zero_hash work 2 nonces none won refl won-Reach refl refl

-- One worker alone, until it has returned
abbrev alone : System
alone =
    run zero_hash work (0 ∷ 0 ∷ 0 ∷ 0 ∷ 0 ∷ 0 ∷ 0 ∷ [])
      (start_mining zero_hash work (λ i. if i == 0 then some zeros32 else none) none)

alone-Reach :
    Reach zero_hash work 1
      (start_mining zero_hash work (λ i. if i == 0 then some zeros32 else none) none)
      alone
unfolding run
alone-Reach = worker 0 (omega arith) (
    worker 0 (omega arith) (
      worker 0 (omega arith) (
        worker 0 (omega arith)
          (worker 0 (omega arith) (worker 0 (omega arith) (worker 0 (omega arith) begin))))))

alone_returned : (i : ℕ) → alone.pcs i ≡ returned
unfolding run start_mining hash_meets_target read_le32
alone_returned zero = refl
alone_returned (suc i) = ground arith

IsSolution-after_join_example :
    IsSolution zero_hash work (hash_input (replicate 140 1) zeros32, zeros32, some work)
unfolding run start_mining hash_meets_target read_le32 read_solution hash_input
IsSolution-after_join_example =
    IsSolution-after_join zero_hash work 1 (λ i. if i == 0 then some zeros32 else none) none alone
      alone-Reach alone_returned refl
