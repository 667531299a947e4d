-- ===== src/Screen/Status.antt =====
-- src/main.cpp: the lines that `print_status_screen` and `print_system_info` write, between the sequences that
-- move the cursor. The texts of doubles, which the C library formats, are arguments.
pub mod Texts
pub mod Aligned
use juno_miner.Base.{
  ℕ, zero, suc, ◌+◌, ◌-◌, ◌/◌, ◌%◌, Bool, List, [], ◌∷◌, ◌++◌, ltb, if◌then◌else◌, length, drop,
  Bytes, bytes_eq,
}
use juno_miner.Text.{codes}
use juno_miner.Utils.Hex.{hex_of_byte}
use juno_miner.Utils.Threads.{SystemResources}
use juno_miner.Screen.{max_update_lines}
use juno_miner.Screen.Layout.{
  bar, visible_length, repeated, sequence, draw_row, draw_centered, draw_line,
}

abbrev pub width : ℕ
width = 72

-- The corners and the horizontal line
abbrev pub corner : ℕ → Bytes
corner last = 0xe2 ∷ 0x94 ∷ last ∷ []

unfoldable pub draw_box_top : Bytes → Bytes
draw_box_top title = draw_line title (corner 0x8c) (corner 0x90) (corner 0x80) width

unfoldable pub draw_box_bottom : Bytes
draw_box_bottom = draw_line [] (corner 0x94) (corner 0x98) (corner 0x80) width

-- The last digits of a number, as many as asked for at most
unfoldable pub digits : ℕ → ℕ → Bytes
digits zero n = []
digits (suc places) n =
    let rest = digits places (n / 10) in (if ltb n 10 then [] else rest) ++ ((b'0' + n % 10) ∷ [])

-- `std::to_string` of a number below 2 ^ 64, which has 20 digits at most
abbrev pub to_string : ℕ → Bytes
to_string n = digits 20 n

-- `%02d`
abbrev pub two_digits : ℕ → Bytes
two_digits n = if ltb n 10 then b'0' ∷ to_string n else to_string n

unfoldable pub uptime_text : ℕ → Bytes
unfolding digits
uptime_text seconds =
    two_digits (seconds / 3600)
    ++ (codes "h "
        ++ (two_digits (seconds % 3600 / 60)
            ++ (codes "m " ++ (two_digits (seconds % 60) ++ codes "s"))))

-- The arguments; the last six are texts that are made of doubles.
pub record Status : Type 0 where
  pub current_height : ℕ
  pub seed_height : ℕ
  pub seed_hash : Bytes
  pub hash_count : ℕ
  pub blocks_mined : ℕ
  pub uptime_seconds : ℕ
  pub num_threads : ℕ
  pub fast_mode : Bool
  pub no_balance : Bool
  pub status : Bytes
  pub local_hashrate : Bytes
  pub network_hashrate : Bytes
  pub difficulty : Bytes
  pub mature_balance : Bytes
  pub immature_balance : Bytes
  pub total_balance : Bytes

-- The number of the epoch, and the end of the seed
unfoldable pub epoch_display : ℕ → Bytes → Bytes
unfolding digits
epoch_display seed_height seed_hash = elim (drop (length seed_hash - 4) seed_hash) [
  | a ∷ b ∷ c ∷ d ∷ [] ↦
      to_string (seed_height / 2048 + 1)
      ++ (codes " ("
          ++ (hex_of_byte a ++ (hex_of_byte b ++ (hex_of_byte c ++ (hex_of_byte d ++ codes ")")))))
  | _ ↦ to_string (seed_height / 2048 + 1)
]

abbrev pub dot : Bytes
dot = 0xe2 ∷ 0x97 ∷ 0x8f ∷ []

unfoldable pub status_display : Bytes → Bytes
status_display status =
    if bytes_eq status (codes "ACTIVE")
    then sequence (codes "[1;32m") ++ (dot ++ (codes " ACTIVE" ++ sequence (codes "[0m")))
    else if bytes_eq status (codes "DISCONNECTED")
    then sequence (codes "[1;31m") ++ (dot ++ (codes " DISCONNECTED" ++ sequence (codes "[0m")))
    else sequence (codes "[1;33m") ++ (dot ++ (codes " " ++ (status ++ sequence (codes "[0m"))))

unfoldable pub mode_display : Bool → Bytes
mode_display fast_mode =
    if fast_mode
    then sequence (codes "[1;32m") ++ (codes "FAST" ++ sequence (codes "[0m"))
    else sequence (codes "[1;33m") ++ (codes "LIGHT" ++ sequence (codes "[0m"))

abbrev pub row : Bytes → Bytes → Bytes
row label value = draw_row label value width

abbrev pub centered : Bytes → Bytes → Bytes
centered text color = draw_centered text color width

unfoldable pub title_box : Status → List Bytes
unfolding draw_box_top draw_box_bottom uptime_text
title_box s =
    draw_box_top []
    ∷ centered (codes "JUNO CASH RANDOMX MINER") (sequence (codes "[1;33m"))
    ∷ centered (codes "Uptime: " ++ uptime_text s.uptime_seconds) (sequence (codes "[0;37m"))
    ∷ draw_box_bottom
    ∷ []

unfoldable pub mining_box : Status → List Bytes
unfolding draw_box_top draw_box_bottom status_display epoch_display mode_display digits
mining_box s =
    draw_box_top (codes "MINING")
    ∷ row (codes "Status") (status_display s.status)
    ∷ row (codes "Block Height") (to_string s.current_height)
    ∷ row (codes "RandomX Epoch") (epoch_display s.seed_height s.seed_hash)
    ∷ row (codes "Mode") (mode_display s.fast_mode)
    ∷ row (codes "Threads") (to_string s.num_threads)
    ∷ row (codes "Local Hashrate") s.local_hashrate
    ∷ row (codes "Hashes") (to_string s.hash_count)
    ∷ row (codes "Blocks Mined") (to_string s.blocks_mined)
    ∷ draw_box_bottom
    ∷ []

unfoldable pub network_box : Status → List Bytes
unfolding draw_box_top draw_box_bottom
network_box s =
    draw_box_top (codes "NETWORK")
    ∷ row (codes "Hashrate") s.network_hashrate
    ∷ row (codes "Difficulty") s.difficulty
    ∷ draw_box_bottom
    ∷ []

unfoldable pub wallet_box : Status → List Bytes
unfolding draw_box_top draw_box_bottom
wallet_box s =
    if s.no_balance
    then []
    else draw_box_top (codes "WALLET")
      ∷ row (codes "Mature Balance") s.mature_balance
      ∷ row (codes "Immature Balance") s.immature_balance
      ∷ row (codes "Total Balance") s.total_balance
      ∷ draw_box_bottom
      ∷ []

-- `update_log[i]`, padded to 70 characters
unfoldable pub message_line : Bytes → Bytes
message_line message =
    bar
    ++ (codes " "
        ++ (message ++ (repeated (70 - visible_length message) (codes " ") ++ (codes " " ++ bar))))

abbrev pub empty_line : Bytes
empty_line = bar ++ (repeated width (codes " ") ++ bar)

-- `for (size_t i = ...; i < MAX_UPDATE_LINES; i++)`, with the messages and the lines that are left
unfoldable pub message_lines : ℕ → List Bytes → List Bytes
unfolding message_line
message_lines zero messages = []
message_lines (suc lines) [] = empty_line ∷ message_lines lines []
message_lines (suc lines) (message ∷ messages) = message_line message ∷ message_lines lines messages

unfoldable pub updates_box : List Bytes → List Bytes
unfolding message_lines draw_box_top draw_box_bottom
updates_box [] =
    draw_box_top (codes "UPDATES")
    ∷ centered (codes "(no updates)") (sequence (codes "[0;37m"))
    ∷ draw_box_bottom
    ∷ []
updates_box (message ∷ messages) =
    (draw_box_top (codes "UPDATES") ∷ message_lines max_update_lines (message ∷ messages))
    ++ (draw_box_bottom ∷ [])

-- A key in its color, and what it does
abbrev pub key_help : Bytes → Bytes → Bytes
key_help key action = sequence (codes "[1;37m") ++ (key ++ (sequence (codes "[0m") ++ action))

abbrev pub controls : Bytes
controls =
    key_help (codes "[SPACE]") (codes " Refresh  ")
    ++ (key_help (codes "[T]") (codes " Adjust Threads  ")
        ++ key_help (codes "[Ctrl+C]") (codes " Stop"))

unfoldable pub controls_box : List Bytes
unfolding draw_box_top draw_box_bottom
controls_box = draw_box_top (codes "CONTROLS") ∷ centered controls [] ∷ draw_box_bottom ∷ []

-- The boxes, without the empty lines between them
unfoldable pub print_status_screen : Status → List Bytes → List Bytes
unfolding title_box mining_box network_box wallet_box updates_box controls_box
print_status_screen s update_log =
    title_box s
    ++ (mining_box s
        ++ (network_box s ++ (wallet_box s ++ (updates_box update_log ++ controls_box))))

unfoldable pub print_system_info : SystemResources → List Bytes
unfolding draw_box_top draw_box_bottom digits
print_system_info resources =
    draw_box_top (codes "SYSTEM RESOURCES")
    ∷ row (codes "CPU Cores") (to_string resources.cpu_cores)
    ∷ row (codes "Total RAM") (to_string resources.total_ram_mb ++ codes " MB")
    ∷ row (codes "Available RAM") (to_string resources.available_ram_mb ++ codes " MB")
    ∷ row (codes "Optimal Threads") (to_string resources.optimal_threads)
    ∷ draw_box_bottom
    ∷ []
