-- ===== src/Mining/Tests.antt =====
-- A round that solves a block, a lost connection and an interruption.
use juno_miner.Base.{
  ◌≡◌, refl, inl, true, false, none, some, [], ◌∷◌, arith, replicate, Bytes, Outcome, Ensures, ok,
}
use juno_miner.Text.{codes}
use juno_miner.Template.{BlockTemplate}
use juno_miner.Utils.Numbers.{scan_int}
use juno_miner.Mining.Input.{
  get_thread_count_input, read_line, parse_reply, entered, read_failed, IsCount,
  get_thread_count_input-IsCount,
}
use juno_miner.Mining.{
  Session, Tick, Solution, fetched, Round, Flow, next, watch, turn, watch_network, mine, finish,
  submit, report, change_epoch, mine_template, main_round, main_loop,
}
use juno_miner.Utils.Block.{serialize_block, append_transactions}
use juno_miner.Utils.Hex.{bytes_to_hex, bytes_to_hex_reversed, hex_to_bytes}
use juno_miner.Utils.Varint.{encode_varint}
use juno_miner.Mining.Seeds.{IsConsistent, main_loop-IsConsistent}

abbrev first_seed : Bytes
first_seed = replicate 32 1

abbrev second_seed : Bytes
second_seed = replicate 32 2

abbrev beginning : Session
beginning = record {
  blocks_mined = 0;
  current_block_height = 0;
  current_seed_hash = first_seed;
  num_threads = 4;
  was_disconnected = false;
  mining = false;
  miner_seed = first_seed;
  has_vms = true;
  events = [];
}

beginning-IsConsistent : IsConsistent beginning
beginning-IsConsistent = record {
  seeds = tt;
  current = refl;
  ready = inl refl;
  counted = omega arith;
}

abbrev template : BlockTemplate
template = record {
  version = 4;
  previous_block_hash = [];
  merkle_root = [];
  block_commitments_hash = [];
  time = 0;
  bits = 0;
  target = [];
  target_hex = [];
  height = 4200;
  seed_height = 4096;
  seed_hash = second_seed;
  next_seed_hash = [];
  header_base = [];
  coinbase_txn_hex = [];
  txn_hex = [];
}

abbrev quiet : Tick
quiet = record {
  running = true;
  solved = false;
  key = 0;
  typed = none;
  changed = false;
  made_vms = false;
  notified = false;
  block_check_elapsed = 0;
  network_height = ok none;
}

abbrev failing : Tick
failing = record quiet { block_check_elapsed = 2 }

abbrev solution : Solution
solution = record {
  height = 4200;
  header = [];
  hash = replicate 32 0;
  coinbase_txn_hex = [];
  txn_hex = [];
  is_accepted = true;
  result = codes "accepted";
}

abbrev solving : Round
solving = record {
  running = true;
  template = ok (fetched template);
  updated = true;
  made_vms = false;
  ticks = quiet ∷ record quiet { solved = true } ∷ [];
  interrupted = false;
  solution = some solution;
}

abbrev outcome : Outcome (Session × Flow)
outcome = main_loop 2 (solving ∷ []) beginning

abbrev reached : Outcome (Session × Flow) → Session
reached (ok (s, flow)) = s
reached _ = beginning

solving_ends : outcome ≡ ok (reached outcome, next)
unfolding main_loop main_round mine_template change_epoch mine watch turn watch_network finish
    submit report serialize_block append_transactions bytes_to_hex bytes_to_hex_reversed
    hex_to_bytes encode_varint
solving_ends = refl

one_block : (reached outcome).blocks_mined ≡ 1
unfolding main_loop main_round mine_template change_epoch mine watch turn watch_network finish
    submit report serialize_block append_transactions bytes_to_hex bytes_to_hex_reversed
    hex_to_bytes encode_varint
one_block = refl

main_loop-IsConsistent_example : IsConsistent (reached outcome)
main_loop-IsConsistent_example =
    main_loop-IsConsistent 2 (solving ∷ []) beginning (reached outcome) next beginning-IsConsistent
      solving_ends

abbrev interrupted : Round
interrupted = record solving {
  ticks = quiet ∷ record quiet { solved = true; running = false } ∷ [];
  interrupted = true;
}

typed_twelve :
    get_thread_count_input 8 (some b' ' ∷ some b'1' ∷ some b'2' ∷ some 10 ∷ none ∷ [])
    ≡ ok (entered 12 true)
unfolding get_thread_count_input read_line parse_reply scan_int
typed_twelve = refl

typed_nothing : get_thread_count_input 8 (some b'1' ∷ none ∷ []) ≡ ok read_failed
unfolding get_thread_count_input read_line parse_reply
typed_nothing = refl

get_thread_count_input-IsCount_example :
    Ensures
      (IsCount 8)
      (get_thread_count_input 8 (some b' ' ∷ some b'1' ∷ some b'2' ∷ some 10 ∷ none ∷ []))
get_thread_count_input-IsCount_example =
    get_thread_count_input-IsCount 8 (some b' ' ∷ some b'1' ∷ some b'2' ∷ some 10 ∷ none ∷ [])
