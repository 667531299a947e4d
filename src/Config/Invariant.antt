-- ===== src/Config/Invariant.antt =====
-- What a configuration that is accepted promises to `main`.
use juno_miner.Base.{
  ℕ, ◌^◌, ◌<◌, ◌≡◌, inl, inr, false, none, some, List, [], ◌∷◌, arith, ◌==◌, if◌then◌else◌,
  Bool-cases, Bytes, Outcome, Ensures, Ensures-bind, Ensures-eq-ok, returns, ok,
}
use juno_miner.Utils.Numbers.{atoi_u32}
use juno_miner.Utils.Numbers.Bounds.{atoi_u32-lt}
use juno_miner.Config.{
  MinerConfig, Flag, rpc_url, rpc_user, rpc_password, threads, update_interval, block_check,
  zmq_url, fast_mode, no_balance, debug, log_file, log_console, Step, classify, takes_value,
  set_flag, set_value, parse_config, default_config,
}

-- The intervals and a requested thread count are positive `unsigned int`s.
pub record IsUsable (config : MinerConfig) : Type 0 where
  pub threads_pos : config.auto_threads ≡ false → 0 < config.num_threads
  pub update_pos : 0 < config.update_interval_seconds
  pub check_pos : 0 < config.block_check_interval_seconds
  pub threads_range : config.num_threads < 2 ^ 32
  pub update_range : config.update_interval_seconds < 2 ^ 32
  pub check_range : config.block_check_interval_seconds < 2 ^ 32

abbrev Usable : Step → Type 0
Usable none = Unit {0}
Usable (some config) = IsUsable config

set_flag-IsUsable :
    (flag : Flag) (config : MinerConfig) → IsUsable config → Usable (set_flag flag config)
unfolding set_flag
set_flag-IsUsable fast_mode config v = ground arith
set_flag-IsUsable no_balance config v = ground arith
set_flag-IsUsable debug config v = ground arith
set_flag-IsUsable log_console config v = ground arith
set_flag-IsUsable _ config v = tt

set_value-IsUsable :
    (flag : Flag) (value : Bytes) (config : MinerConfig)
    → IsUsable config
    → Ensures Usable (set_value flag value config)
unfolding set_value
set_value-IsUsable rpc_url value config v = returns (ground arith)
set_value-IsUsable rpc_user value config v = returns (ground arith)
set_value-IsUsable rpc_password value config v = returns (ground arith)
set_value-IsUsable threads value config v =
    Ensures-bind (atoi_u32 value) _ λ n read. returns (checked n (atoi_u32-lt value n read))
  where
    checked :
        (n : ℕ)
        → n < 2 ^ 32
        → Usable (
            if n == 0 then none else some (record config { num_threads = n; auto_threads = false }))
    checked n h = ground arith
set_value-IsUsable update_interval value config v =
    Ensures-bind (atoi_u32 value) _ λ n read. returns (checked n (atoi_u32-lt value n read))
  where
    checked :
        (n : ℕ)
        → n < 2 ^ 32
        → Usable (if n == 0 then none else some (record config { update_interval_seconds = n }))
    checked n h = ground arith
set_value-IsUsable block_check value config v =
    Ensures-bind (atoi_u32 value) _ λ n read. returns (checked n (atoi_u32-lt value n read))
  where
    checked :
        (n : ℕ)
        → n < 2 ^ 32
        → Usable
            (if n == 0 then none else some (record config { block_check_interval_seconds = n }))
    checked n h = ground arith
set_value-IsUsable zmq_url value config v = returns (ground arith)
set_value-IsUsable log_file value config v = returns (ground arith)
set_value-IsUsable _ value config v = returns tt

-- The rest of the loop runs on the configuration a turn leaves.
continue-Ensures :
    (step : Step) (next : MinerConfig → Outcome Step)
    → Usable step
    → ((config : MinerConfig) → IsUsable config → Ensures Usable (next config))
    → Ensures Usable (elim step [ none ↦ ok none | some config ↦ next config ])
continue-Ensures none next u h = returns tt
continue-Ensures (some config) next u h = h config u

parse_config-Ensures :
    (args : List Bytes) (config : MinerConfig)
    → IsUsable config
    → Ensures Usable (parse_config args config)
unfolding parse_config
parse_config-Ensures [] config v = returns v
parse_config-Ensures (arg ∷ []) config v = returns (set_flag-IsUsable (classify arg) config v)
parse_config-Ensures (arg ∷ value ∷ rest) config v =
    elim (Bool-cases (takes_value (classify arg))) [
      | inl takes ↦ rw takes (
          Ensures-bind (set_value (classify arg) value config) _ λ step e.
            continue-Ensures step (parse_config rest)
              (Ensures-eq-ok (set_value-IsUsable (classify arg) value config v) e)
              (parse_config-Ensures rest))
      | inr plain ↦ rw plain (
          continue-Ensures (set_flag (classify arg) config) (parse_config (value ∷ rest))
            (set_flag-IsUsable (classify arg) config v) (parse_config-Ensures (value ∷ rest)))
    ]

pub default_config-IsUsable : IsUsable default_config
default_config-IsUsable = ground arith

-- If `parse_config` accepts the command line, the configuration it leaves has positive intervals and, unless
-- the thread count is automatic, a positive thread count, all below 2^32, given that it was called with a
-- configuration of that kind.
pub parse_config-IsUsable :
    (args : List Bytes) (config config' : MinerConfig)
    → IsUsable config
    → parse_config args config ≡ ok (some config')
    → IsUsable config'
parse_config-IsUsable args config config' v e = Ensures-eq-ok (parse_config-Ensures args config v) e
