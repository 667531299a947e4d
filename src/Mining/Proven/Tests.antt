-- ===== src/Mining/Proven/Tests.antt =====
-- One worker that solves a small template, and the block that is sent.
use juno_miner.Base.{
  ℕ, zero, suc, ◌≡◌, refl, true, false, Option, none, some, [], ◌∷◌, arith, ◌==◌, if◌then◌else◌,
  replicate, Bytes, ok,
}
use juno_miner.Text.{codes}
use juno_miner.Utils.Numbers.{stoi16_u8}
use juno_miner.Utils.Endian.{read_le32}
use juno_miner.Utils.Hex.{hex_to_bytes}
use juno_miner.Utils.Target.{hash_meets_target, compact_to_target}
use juno_miner.Miner.Workers.{
  Work, System, start_mining, Reach, begin, worker, get_solution, at_once,
}
use juno_miner.Miner.Workers.Nonces.{AreBytes32}
use juno_miner.Miner.Workers.Stopping.{run}
use juno_miner.Template.Tests.{docs, template_doc, parsed, template_parses}
use juno_miner.Mining.{Session, submit}
use juno_miner.Mining.Proven.{work_of, IsProven, solution_of, Sends, submit-IsProven}

abbrev zeros32 : Bytes
zeros32 = replicate 32 0

abbrev zero_hash : Bytes → Bytes
zero_hash input = zeros32

abbrev one_nonce : ℕ → Option Bytes
one_nonce i = if i == 0 then some zeros32 else none

one_nonce-AreBytes32 : AreBytes32 one_nonce
one_nonce-AreBytes32 zero nonce e = ground (arith, e)
one_nonce-AreBytes32 (suc i) nonce e = ground (arith, e)

abbrev start : System
start = start_mining zero_hash (work_of parsed) one_nonce none

-- The worker has stored its solution and cleared `mining_`.
abbrev solved : System
solved = run zero_hash (work_of parsed) (0 ∷ 0 ∷ 0 ∷ 0 ∷ 0 ∷ 0 ∷ 0 ∷ []) start

solved-Reach : Reach zero_hash (work_of parsed) 1 start solved
unfolding run
solved-Reach = worker 0 (omega arith) (
    worker 0 (omega arith) (
      worker 0 (omega arith) (
        worker 0 (omega arith)
          (worker 0 (omega arith) (worker 0 (omega arith) (worker 0 (omega arith) begin))))))

abbrev session : Session
session = record {
  blocks_mined = 0;
  current_block_height = 5000;
  current_seed_hash = replicate 32 0x11;
  num_threads = 1;
  was_disconnected = false;
  mining = false;
  miner_seed = replicate 32 0x11;
  has_vms = true;
  events = [];
}

submit-IsProven_example :
    (result : Bytes × Bytes × Option Work) × (text : Bytes) × (session' : Session) × (get_solution
        solved.shared
      ≡ at_once (some result))
    × (submit (solution_of parsed result true (codes "accepted")) session ≡ ok session')
    × Sends session text true session'
    × IsProven zero_hash parsed text
unfolding run start_mining hash_meets_target read_le32 compact_to_target hex_to_bytes stoi16_u8
submit-IsProven_example =
    submit-IsProven zero_hash docs template_doc parsed 1 one_nonce none solved session true
      (codes "accepted") (10 ∷ []) template_parses (λ input. (omega arith, refl))
      one_nonce-AreBytes32 (omega arith) refl solved-Reach refl refl
