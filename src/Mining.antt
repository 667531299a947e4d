-- ===== src/Mining.antt =====
-- src/main.cpp: the mining loop of `main`. What the node, the user, the clock and the worker threads do in a
-- turn is an argument; the calls of the miner and the messages are events. Of a call of `Miner`, the loop sees
-- its result, whether the miner is mining, and the seed of its VMs.
pub mod Seeds
pub mod Stopping
pub mod Input
pub mod Proven
mod Tests
use juno_miner.Base.{
  ℕ, ◌+◌, ◌-◌, ◌%◌, ◌^◌, Bool, true, false, ◌&&◌, ◌||◌, not, Option, none, some, List, [], ◌∷◌, ltb,
  leb, ◌==◌, if◌then◌else◌, Bytes, bytes_eq, Outcome, ◌>>=◌, ◌>>◌, ok,
}
use juno_miner.Utils.Hex.{bytes_to_hex_reversed}
use juno_miner.Utils.Block.{serialize_block}
use juno_miner.Miner.Seed.{seed_height}
use juno_miner.Template.{BlockTemplate}

-- The messages of `add_update_message`, with the values that they print
pub data Message : Type 0 where
  rpc_error : Bytes → Message
  reconnected updating_cache update_failed transition_complete refreshed : Message
  thread_count_failed connection_lost submitting mining_started zmq_enabled : Message
  epoch_transition : ℕ → ℕ → Message
  thread_count : ℕ → Message
  new_block : ℕ → ℕ → Bool → Message
  accepted : Bytes → ℕ → ℕ → Message
  rejected : Bytes → Message
  block_hash : Bytes → Message

-- `started` has the template's height and seed, the miner's seed, and whether its threads have VMs; `submitted` has the block and
-- whether the node took it.
pub data Event : Type 0 where
  said : Message → Event
  stopped : Event
  started : ℕ → Bytes → Bytes → Bool → Event
  submitted : Bytes → Bool → Event

-- The variables of the loop, and of the miner: `has_vms` is whether every thread has a VM. The newest event is the first.
pub record Session : Type 0 where
  pub blocks_mined : ℕ
  pub current_block_height : ℕ
  pub current_seed_hash : Bytes
  pub num_threads : ℕ
  pub was_disconnected : Bool
  pub mining : Bool
  pub miner_seed : Bytes
  pub has_vms : Bool
  pub events : List Event

abbrev pub say : Message → Session → Session
say message s = record s { events = said message ∷ s.events }

-- `miner.stop()`
abbrev pub stop : Session → Session
stop s = record s { mining = false; events = stopped ∷ s.events }

-- What a turn of the inner loop meets. `solved` is whether a worker has cleared `mining_`, `typed` the answer of
-- `get_thread_count_input`, `changed` that of `set_thread_count`, `notified` the flag of the ZeroMQ thread, and
-- `network_height` what `get_blockchain_info` and `asUInt64` come to.
pub record Tick : Type 0 where
  pub running : Bool
  pub solved : Bool
  pub key : ℕ
  pub typed : Option ℕ
  pub changed : Bool
  pub made_vms : Bool
  pub notified : Bool
  pub block_check_elapsed : ℕ
  pub network_height : Outcome (Option ℕ)

-- Where the inner loop goes: on, with the number of failed calls, or out, with `block_changed`
pub data Next : Type 0 where
  again : ℕ → Next
  leave : Bool → Next

abbrev pub max_rpc_failures : ℕ
max_rpc_failures = 2

-- The T key, on the answer. A change that fails has released the VMs, and one that succeeds leaves them or makes
-- them.
unfoldable pub adjust_threads : Tick → Session → Session
adjust_threads tick s = elim tick.typed [
  | none ↦ s
  | some n ↦
      if tick.changed
      then say (thread_count n) (record s { num_threads = n; has_vms = s.has_vms || tick.made_vms })
      else say thread_count_failed (record s { has_vms = false })
]

-- The check for a new block, on the height of the network
unfoldable pub check_block : Tick → Session → ℕ → Option ℕ → Session × Next
check_block tick s failures none =
    if leb max_rpc_failures (failures + 1)
    then (stop (say connection_lost s), leave false)
    else (s, again (failures + 1))
check_block tick s failures (some network_height) =
    if ltb s.current_block_height network_height
    then (stop (say (new_block s.current_block_height network_height tick.notified) s), leave true)
    else (s, again 0)

-- The part of a turn behind the keyboard; a height that is no number ends the program.
unfoldable pub watch_network : ℕ → Tick → Session → ℕ → Outcome (Session × Next)
unfolding check_block
watch_network interval tick s failures =
    if tick.notified || leb interval tick.block_check_elapsed
    then (do height ← tick.network_height; ok (check_block tick s failures height))
    else ok (s, again failures)

-- A turn of `while (miner.is_mining() && running.load())`
unfoldable pub turn : ℕ → Tick → Session → ℕ → Outcome (Session × Next)
unfolding adjust_threads watch_network
turn interval tick s failures =
    if (s.mining && not tick.solved) && tick.running
    then if (tick.key == b't') || (tick.key == b'T')
      then ok (adjust_threads tick (stop s), leave false)
      else if tick.key == b' '
      then watch_network interval tick (say refreshed s) failures
      else watch_network interval tick s failures
    else ok (record s { mining = s.mining && not tick.solved }, leave false)

-- The rest of the inner loop runs unless the loop is left.
abbrev pub go_on :
    (Session → ℕ → Outcome (Session × Option Bool))
    → Session × Next
    → Outcome (Session × Option Bool)
go_on more (s, leave block_changed) = ok (s, some block_changed)
go_on more (s, again failures) = more s failures

-- The inner loop over its turns, with `block_changed`; `none` while it goes on.
unfoldable pub watch : ℕ → List Tick → Session → ℕ → Outcome (Session × Option Bool)
unfolding turn
watch interval [] s failures = ok (s, none)
watch interval (tick ∷ ticks) s failures =
    turn interval tick s failures >>= go_on (watch interval ticks)

-- What `get_solution` gives, and the node's answer to the block
pub record Solution : Type 0 where
  pub height : ℕ
  pub header : Bytes
  pub hash : Bytes
  pub coinbase_txn_hex : Bytes
  pub txn_hex : List Bytes
  pub is_accepted : Bool
  pub result : Bytes

-- What a round of the main loop meets. `template` is what `get_block_template` and `parse_block_template` come
-- to, with the client's error text where the call fails; `updated` is the result of `update_seed`, `made_vms` whether it or `set_thread_count` gives VMs to a miner that had
-- not all of them, and
-- `interrupted` whether `running` is false behind the inner loop.
pub data Fetch : Type 0 where
  unreachable : Bytes → Fetch
  fetched : BlockTemplate → Fetch

pub record Round : Type 0 where
  pub running : Bool
  pub template : Outcome Fetch
  pub updated : Bool
  pub made_vms : Bool
  pub ticks : List Tick
  pub interrupted : Bool
  pub solution : Option Solution

-- Where the main loop goes: on, out of `main` with its result, or nowhere yet
pub data Flow : Type 0 where
  next : Flow
  returned : ℕ → Flow
  waiting : Flow

-- The node's answer to a block
unfoldable pub report : Solution → Bytes → Session → Session
report solution block_hash_hex s =
    if solution.is_accepted
    then (let blocks_mined = (s.blocks_mined + 1) % 2 ^ 64 in
        say (block_hash block_hash_hex) (
          say (accepted solution.result solution.height blocks_mined)
            (record s { blocks_mined = blocks_mined })))
    else say (block_hash block_hash_hex) (say (rejected solution.result) s)

unfoldable pub submit : Solution → Session → Outcome Session
unfolding report
submit solution s = do
  block_hex ←
      serialize_block solution.header solution.hash solution.coinbase_txn_hex solution.txn_hex
  block_hash_hex ← bytes_to_hex_reversed solution.hash 32
  let sent = say submitting s
  ok (
      report solution block_hash_hex
        (record sent { events = submitted block_hex solution.is_accepted ∷ sent.events }))

-- Behind the inner loop: `stop` on an interruption, and again in `get_solution` if the miner is mining
unfoldable pub finish : Round → Bool → Session → Outcome (Session × Flow)
unfolding submit
finish round true s = ok (if round.interrupted then stop s else s, next)
finish round false s =
    let s' = if s.mining || round.interrupted then stop s else s in
    elim round.solution [
      | some solution ↦ do s'' ← submit solution s'; ok (s'', next)
      | none ↦ ok (s', if round.interrupted then returned 0 else next)
    ]

abbrev pub after_watch : Round → Session × Option Bool → Outcome (Session × Flow)
after_watch round (s, none) = ok (s, waiting)
after_watch round (s, some block_changed) = finish round block_changed s

-- `miner.start_mining` and the inner loop
unfoldable pub mine : ℕ → Round → BlockTemplate → Session → Outcome (Session × Flow)
unfolding watch finish
mine interval round template s =
    watch interval round.ticks
      (record s {
        mining = true;
        events = started template.height template.seed_hash s.miner_seed s.has_vms ∷ s.events;
      })
      0
    >>= after_watch round

-- The change of the epoch; `update_seed` gives the miner's VMs the new seed where it succeeds.
unfoldable pub change_epoch : Round → BlockTemplate → Session → Session × Bool
change_epoch round template s =
    let old_epoch = seed_height ((s.current_block_height + (2 ^ 64 - 1)) % 2 ^ 64) in
    let new_epoch = seed_height s.current_block_height in
    let told = say updating_cache (say (epoch_transition old_epoch new_epoch) s) in
    if round.updated
    then (
      say transition_complete (record told {
        mining = false;
        miner_seed = template.seed_hash;
        has_vms = s.has_vms || round.made_vms;
        current_seed_hash = template.seed_hash;
      }),
      true,
    )
    else (say update_failed (record told { mining = false; has_vms = false }), false)

-- The template has arrived, after a disconnection or not.
abbrev pub arrive : BlockTemplate → Session → Session
arrive template s =
    record (if s.was_disconnected
      then record (say reconnected s) { was_disconnected = false }
      else s) { current_block_height = template.height }

-- A round with a template
unfoldable pub mine_template : ℕ → Round → BlockTemplate → Session → Outcome (Session × Flow)
unfolding mine change_epoch
mine_template interval round template s =
    let s' = arrive template s in
    if bytes_eq template.seed_hash s'.current_seed_hash
    then mine interval round template s'
    else (let (s'', success) = change_epoch round template s' in
        if success then mine interval round template s'' else ok (s'', returned 1))

abbrev pub mine_fetched : ℕ → Round → Session → Fetch → Outcome (Session × Flow)
mine_fetched interval round s (unreachable message) =
    ok (record (say (rpc_error message) s) { was_disconnected = true }, next)
mine_fetched interval round s (fetched template) = mine_template interval round template s

-- A round of `while (running.load())`
unfoldable pub main_round : ℕ → Round → Session → Outcome (Session × Flow)
unfolding mine_template
main_round interval round s =
    if round.running then round.template >>= mine_fetched interval round s else ok (s, returned 0)

abbrev pub continue :
    (Session → Outcome (Session × Flow)) → Session × Flow → Outcome (Session × Flow)
continue more (s, next) = more s
continue more (s, returned code) = ok (s, returned code)
continue more (s, waiting) = ok (s, waiting)

unfoldable pub main_loop : ℕ → List Round → Session → Outcome (Session × Flow)
unfolding main_round
main_loop interval [] s = ok (s, next)
main_loop interval (round ∷ rounds) s =
    main_round interval round s >>= continue (main_loop interval rounds)
