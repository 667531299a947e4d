-- ===== src/Screen.antt =====
-- src/main.cpp: the messages that the status screen shows, `update_log` and `add_update_message`.
pub mod Messages
pub mod Layout
pub mod Status
mod Tests
use juno_miner.Base.{ℕ, List, [], ◌∷◌, ◌++◌, ltb, if◌then◌else◌, length, Bytes}
use juno_miner.Text.{codes}

abbrev pub max_update_lines : ℕ
max_update_lines = 4

-- `while (update_log.size() > MAX_UPDATE_LINES) update_log.pop_front();`
unfoldable pub trim : List Bytes → List Bytes
trim [] = []
trim (line ∷ lines) =
    let rest = trim lines in
    if ltb max_update_lines (length (line ∷ lines)) then rest else line ∷ lines

-- `timestamp` is the local time in the form "%02d:%02d:%02d".
abbrev pub stamped : Bytes → Bytes → Bytes
stamped timestamp msg = codes "[" ++ (timestamp ++ (codes "] " ++ msg))

unfoldable pub add_update_message : Bytes → Bytes → List Bytes → List Bytes
unfolding trim
add_update_message timestamp msg update_log = trim (update_log ++ (stamped timestamp msg ∷ []))
