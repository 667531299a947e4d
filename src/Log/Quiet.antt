-- ===== src/Log/Quiet.antt =====
-- src/logger.cpp: without debug mode, debug messages leave no trace.
use juno_miner.Base.{
  ◌≡◌, refl, ap, ◌∙◌, inl, inr, Bool, true, false, List, [], ◌∷◌, arith, Bool-cases, Bytes,
}
use juno_miner.Log.{
  LogLevel, debug, info, warning, error, Logger, set_log_level, enable_console_logging,
  set_debug_mode, enable_file_logging, Source, should_log, log,
}

-- The calls of a logger, but for the switch to debug mode
pub data Call : Type 0 where
  level_set : LogLevel → Call
  console_set : Bool → Call
  debug_off : Call
  file_set : Bool → Bytes → Call
  logged : LogLevel → Bytes → Bytes → Source → Call

unfoldable pub perform : Call → Logger → Logger
perform (level_set level) l = set_log_level level l
perform (console_set enable) l = enable_console_logging enable l
perform debug_off l = set_debug_mode false l
perform (file_set opens timestamp) l = enable_file_logging opens timestamp l
perform (logged level timestamp message source) l = log level timestamp message source l

abbrev pub run : List Call → Logger → Logger
run [] l = l
run (c ∷ calls) l = run calls (perform c l)

-- The calls without the debug messages
abbrev pub without_debug : List Call → List Call
without_debug [] = []
without_debug (logged debug timestamp message source ∷ calls) = without_debug calls
without_debug (c ∷ calls) = c ∷ without_debug calls

perform-debug_mode :
    (c : Call) (l : Logger) → l.debug_mode ≡ false → (perform c l).debug_mode ≡ false
unfolding perform set_debug_mode enable_file_logging log
perform-debug_mode (level_set level) l e = e
perform-debug_mode (console_set enable) l e = e
perform-debug_mode debug_off l e = refl
perform-debug_mode (file_set true timestamp) l e = e
perform-debug_mode (file_set false timestamp) l e = e
perform-debug_mode (logged level timestamp message source) l e =
    elim (Bool-cases (should_log level l)) [ inl shown ↦ rw shown e | inr hidden ↦ rw hidden e ]

not_logged :
    (timestamp message : Bytes) (source : Source) (l : Logger)
    → l.debug_mode ≡ false
    → perform (logged debug timestamp message source) l ≡ l
unfolding perform log should_log
not_logged timestamp message source l e = ground (arith, e)

-- From a logger that is not in debug mode, any calls but the switch to it leave the same logger, and the same
-- texts on the console and in the file, as the calls without the debug messages.
pub run-without_debug :
    (calls : List Call) (l : Logger)
    → l.debug_mode ≡ false
    → run calls l ≡ run (without_debug calls) l
run-without_debug [] l e = refl
run-without_debug (level_set level ∷ calls) l e =
    run-without_debug calls (perform (level_set level) l) (perform-debug_mode (level_set level) l e)
run-without_debug (console_set enable ∷ calls) l e =
    run-without_debug calls (perform (console_set enable) l)
      (perform-debug_mode (console_set enable) l e)
run-without_debug (debug_off ∷ calls) l e =
    run-without_debug calls (perform debug_off l) (perform-debug_mode debug_off l e)
run-without_debug (file_set opens timestamp ∷ calls) l e =
    run-without_debug calls (perform (file_set opens timestamp) l)
      (perform-debug_mode (file_set opens timestamp) l e)
run-without_debug (logged debug timestamp message source ∷ calls) l e =
    ap (run calls) (not_logged timestamp message source l e) ∙ run-without_debug calls l e
run-without_debug (logged info timestamp message source ∷ calls) l e =
    run-without_debug calls (perform (logged info timestamp message source) l)
      (perform-debug_mode (logged info timestamp message source) l e)
run-without_debug (logged warning timestamp message source ∷ calls) l e =
    run-without_debug calls (perform (logged warning timestamp message source) l)
      (perform-debug_mode (logged warning timestamp message source) l e)
run-without_debug (logged error timestamp message source ∷ calls) l e =
    run-without_debug calls (perform (logged error timestamp message source) l)
      (perform-debug_mode (logged error timestamp message source) l e)
