-- ===== src/Log/Tests.antt =====
-- A debug message and a warning, with the file open.
use juno_miner.Base.{◌≡◌, refl, true, none, some, List, [], ◌∷◌, ◌++◌}
use juno_miner.Text.{codes}
use juno_miner.Log.{
  debug, warning, constructed, enable_file_logging, log, log_line, should_log, level_to_string,
  origin, base_name,
}
use juno_miner.Log.Quiet.{Call, file_set, logged, perform, run, without_debug, run-without_debug}

abbrev calls : List Call
calls =
    file_set true (codes "12:00")
    ∷ logged debug (codes "12:01") (codes "seed") (some (codes "src/miner.cpp", codes "170"))
    ∷ logged warning (codes "12:02") (codes "RPC") none
    ∷ []

run-without_debug_example : run calls constructed ≡ run (without_debug calls) constructed
run-without_debug_example = run-without_debug calls constructed refl

debug_line :
    log_line debug (codes "12:01") (codes "seed") (some (codes "src/miner.cpp", codes "170"))
    ≡ codes "[12:01] [DEBUG] seed (miner.cpp:170)"
unfolding log_line level_to_string origin base_name
debug_line = refl

warning_written :
    (run calls constructed).file
    ≡ 10 ∷ codes "=== Logging session started at 12:00 ==="
      ++ (10 ∷ (codes "[12:02] [WARN ] RPC" ++ (10 ∷ [])))
unfolding perform enable_file_logging log should_log log_line level_to_string origin
warning_written = refl
