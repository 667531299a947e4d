-- ===== src/Config/Tests.antt =====
-- Command lines.
use juno_miner.Base.{◌≡◌, refl, true, false, none, some, List, [], ◌∷◌, Bytes, ok}
use juno_miner.Text.{codes}
use juno_miner.Utils.Numbers.{atoi_u32}
use juno_miner.Config.{
  MinerConfig, default_config, classify, set_flag, set_value, parse_config, atoi_u32,
}
use juno_miner.Config.Invariant.{IsUsable, default_config-IsUsable, parse_config-IsUsable}

abbrev arguments : List Bytes
arguments = codes "--threads" ∷ codes "4" ∷ codes "--debug" ∷ codes "--block-check" ∷ codes "7" ∷ []

abbrev configured : MinerConfig
configured = record default_config {
  num_threads = 4;
  auto_threads = false;
  debug_mode = true;
  log_file = codes "juno-miner.log";
  block_check_interval_seconds = 7;
}

arguments_accepted : parse_config arguments default_config ≡ ok (some configured)
unfolding parse_config classify set_flag set_value atoi_u32
arguments_accepted = refl

parse_config-IsUsable_example : IsUsable configured
parse_config-IsUsable_example =
    parse_config-IsUsable arguments default_config configured default_config-IsUsable
      arguments_accepted

-- An option that lacks its argument, and an unknown one, are refused.
missing_argument : parse_config (codes "--threads" ∷ []) default_config ≡ ok none
unfolding parse_config classify set_flag set_value
missing_argument = refl

unknown_option : parse_config (codes "--turbo" ∷ codes "1" ∷ []) default_config ≡ ok none
unfolding parse_config classify set_flag set_value
unknown_option = refl

-- A negative thread count wraps to a large one.
negative_threads :
    parse_config (codes "--threads" ∷ codes "-1" ∷ []) default_config
    ≡ ok (some (record default_config { num_threads = 4294967295; auto_threads = false }))
unfolding parse_config classify set_flag set_value atoi_u32
negative_threads = refl
