-- ===== src/Config.antt =====
-- src/config.h and src/config.cpp: `MinerConfig` and `parse_config`.
pub mod Invariant
mod Tests
use juno_miner.Base.{
  ℕ, Bool, true, false, ◌||◌, Option, none, some, List, [], ◌∷◌, ◌==◌, if◌then◌else◌, Bytes,
  bytes_eq, Outcome, ◌>>=◌, ◌>>◌, ok,
}
use juno_miner.Utils.Numbers.{atoi_u32}
use juno_miner.Text.{codes}

pub record MinerConfig : Type 0 where
  pub rpc_url : Bytes
  pub rpc_user : Bytes
  pub rpc_password : Bytes
  pub num_threads : ℕ
  pub auto_threads : Bool
  pub update_interval_seconds : ℕ
  pub block_check_interval_seconds : ℕ
  pub debug_mode : Bool
  pub log_file : Bytes
  pub log_to_console : Bool
  pub fast_mode : Bool
  pub no_balance : Bool
  pub zmq_url : Bytes

abbrev pub default_config : MinerConfig
default_config = record {
  rpc_url = codes "http://127.0.0.1:8232";
  rpc_user = [];
  rpc_password = [];
  num_threads = 0;
  auto_threads = true;
  update_interval_seconds = 5;
  block_check_interval_seconds = 2;
  debug_mode = false;
  log_file = [];
  log_to_console = false;
  fast_mode = false;
  no_balance = false;
  zmq_url = [];
}

-- The options by their spelling; `other` is any argument that is none of them.
pub data Flag : Type 0 where
  help rpc_url rpc_user rpc_password threads update_interval block_check zmq_url : Flag
  fast_mode no_balance debug log_file log_console other : Flag

abbrev is : Bytes → Bytes → Bool
is = bytes_eq

unfoldable pub classify : Bytes → Flag
classify arg =
    if is arg (codes "--help") || is arg (codes "-h")
    then help
    else if is arg (codes "--rpc-url")
    then rpc_url
    else if is arg (codes "--rpc-user")
    then rpc_user
    else if is arg (codes "--rpc-password")
    then rpc_password
    else if is arg (codes "--threads")
    then threads
    else if is arg (codes "--update-interval")
    then update_interval
    else if is arg (codes "--block-check")
    then block_check
    else if is arg (codes "--zmq-url")
    then zmq_url
    else if is arg (codes "--fast-mode")
    then fast_mode
    else if is arg (codes "--no-balance")
    then no_balance
    else if is arg (codes "--debug")
    then debug
    else if is arg (codes "--log-file")
    then log_file
    else if is arg (codes "--log-console")
    then log_console
    else other

-- What one turn of the loop does to the configuration: `none` is `return false`.
abbrev pub Step : Type 0
Step = Option MinerConfig

abbrev pub is_empty : Bytes → Bool
is_empty [] = true
is_empty (c ∷ cs) = false

-- A branch that takes no further argument; `none` where the flag takes one, or is unknown
unfoldable pub set_flag : Flag → MinerConfig → Option MinerConfig
set_flag fast_mode config = some (record config { fast_mode = true })
set_flag no_balance config = some (record config { no_balance = true })
set_flag debug config = some (record config {
  debug_mode = true;
  log_file = if is_empty config.log_file then codes "juno-miner.log" else config.log_file;
})
set_flag log_console config = some (record config { log_to_console = true })
set_flag _ config = none

-- A number must not be 0; the field is written before it is tested.
abbrev pub nonzero : ℕ → MinerConfig → Outcome Step
nonzero n config = ok (if n == 0 then none else some config)

-- A branch that takes an argument, on the argument
unfoldable pub set_value : Flag → Bytes → MinerConfig → Outcome Step
set_value rpc_url value config = ok (some (record config { rpc_url = value }))
set_value rpc_user value config = ok (some (record config { rpc_user = value }))
set_value rpc_password value config = ok (some (record config { rpc_password = value }))
set_value threads value config = do
  n ← atoi_u32 value
  nonzero n (record config { num_threads = n; auto_threads = false })
set_value update_interval value config = do
  n ← atoi_u32 value
  nonzero n (record config { update_interval_seconds = n })
set_value block_check value config = do
  n ← atoi_u32 value
  nonzero n (record config { block_check_interval_seconds = n })
set_value zmq_url value config = ok (some (record config { zmq_url = value }))
set_value log_file value config = ok (some (record config { log_file = value }))
set_value _ value config = ok none

abbrev pub takes_value : Flag → Bool
takes_value help = false
takes_value fast_mode = false
takes_value no_balance = false
takes_value debug = false
takes_value log_console = false
takes_value other = false
takes_value _ = true

-- `for (int i = 1; i < argc; i++)`; the list is `argv` from `i` on. `none` is the result false, on which
-- the caller does not read the configuration.
unfoldable pub parse_config : List Bytes → MinerConfig → Outcome Step
unfolding set_flag set_value
parse_config [] config = ok (some config)
parse_config (arg ∷ []) config = ok (set_flag (classify arg) config)
parse_config (arg ∷ value ∷ rest) config =
    if takes_value (classify arg)
    then (set_value (classify arg) value config >>= λ result. elim result [
      | none ↦ ok none
      | some config' ↦ parse_config rest config'
    ])
    else elim (set_flag (classify arg) config) [
      | none ↦ ok none
      | some config' ↦ parse_config (value ∷ rest) config'
    ]
