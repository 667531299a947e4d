-- ===== src/Log.antt =====
-- src/logger.h and src/logger.cpp: `Logger`. The clock, the opening of the file and the decimal text of a line
-- number are arguments.
pub mod Quiet
mod Tests
use juno_miner.Base.{
  ℕ, Bool, true, false, ◌&&◌, ◌||◌, not, Option, none, some, [], ◌∷◌, ◌++◌, leb, ◌==◌,
  if◌then◌else◌, Bytes,
}
use juno_miner.Text.{codes}

pub data LogLevel : Type 0 where
  debug info warning error : LogLevel

-- `static_cast<int>(level)`
abbrev pub level_number : LogLevel → ℕ
level_number debug = 0
level_number info = 1
level_number warning = 2
level_number error = 3

unfoldable pub level_to_string : LogLevel → Bytes
level_to_string debug = codes "DEBUG"
level_to_string info = codes "INFO "
level_to_string warning = codes "WARN "
level_to_string error = codes "ERROR"

-- `console` and `file` are what has been written so far; `is_open` is `log_file_.is_open()`.
pub record Logger : Type 0 where
  pub min_level : LogLevel
  pub console_enabled : Bool
  pub file_enabled : Bool
  pub debug_mode : Bool
  pub is_open : Bool
  pub console : Bytes
  pub file : Bytes

abbrev pub constructed : Logger
constructed = record {
  min_level = info;
  console_enabled = false;
  file_enabled = false;
  debug_mode = false;
  is_open = false;
  console = [];
  file = [];
}

abbrev pub set_log_level : LogLevel → Logger → Logger
set_log_level level l = record l { min_level = level }

abbrev pub enable_console_logging : Bool → Logger → Logger
enable_console_logging enable l = record l { console_enabled = enable }

unfoldable pub set_debug_mode : Bool → Logger → Logger
set_debug_mode enable l = record l {
  debug_mode = enable;
  min_level = if enable then debug else l.min_level;
}

-- `opens` is whether the file could be opened; a file that was open before has been closed.
unfoldable pub enable_file_logging : Bool → Bytes → Logger → Logger
enable_file_logging opens timestamp l =
    if opens
    then record l {
      is_open = true;
      file_enabled = true;
      file =
          l.file
          ++ (10
              ∷ (codes "=== Logging session started at "
                  ++ (timestamp ++ (codes " ===" ++ (10 ∷ [])))));
    }
    else record l { is_open = false; file_enabled = false }

unfoldable pub should_log : LogLevel → Logger → Bool
should_log level l =
    if not l.debug_mode && (level_number level == 0)
    then false
    else leb (level_number l.min_level) (level_number level)

abbrev pub is_slash : ℕ → Bool
is_slash c = c == b'/' || c == 92

-- `filename.find_last_of("/\\\\")` and the part behind it
unfoldable pub base_name : Bytes → Option Bytes
base_name [] = none
base_name (c ∷ cs) = elim (base_name cs) [
  | some name ↦ some name
  | none ↦ if is_slash c then some cs else none
]

-- Where a debug message comes from: the file's path, and the line as text
abbrev pub Source : Type 0
Source = Option (Bytes × Bytes)

unfoldable pub origin : LogLevel → Source → Bytes
unfolding base_name
origin debug (some (path, line)) =
    let filename : Bytes = elim (base_name path) [ none ↦ path | some name ↦ name ] in
    codes " (" ++ (filename ++ (codes ":" ++ (line ++ codes ")")))
origin _ _ = []

unfoldable pub log_line : LogLevel → Bytes → Bytes → Source → Bytes
unfolding level_to_string origin
log_line level timestamp message source =
    codes "["
    ++ (timestamp
        ++ (codes "] ["
            ++ (level_to_string level ++ (codes "] " ++ (message ++ origin level source)))))

unfoldable pub log : LogLevel → Bytes → Bytes → Source → Logger → Logger
unfolding should_log log_line
log level timestamp message source l =
    let line = log_line level timestamp message source ++ (10 ∷ []) in
    if should_log level l
    then record l {
      console = if l.console_enabled then l.console ++ line else l.console;
      file = if l.file_enabled && l.is_open then l.file ++ line else l.file;
    }
    else l
