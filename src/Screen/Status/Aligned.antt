-- ===== src/Screen/Status/Aligned.antt =====
-- src/main.cpp: the lines of the status screen are equally wide.
use juno_miner.Base.{
  ℕ, zero, suc, ◌+◌, ◌-◌, ◌^◌, ◌≤◌, ◌<◌, refl, subst, Bool, true, false, List, [], ◌∷◌, ◌++◌, arith,
  if◌then◌else◌, length, All, All-append, IsByte, Bytes,
}
use juno_miner.Text.{codes}
use juno_miner.Utils.Threads.{SystemResources}
use juno_miner.Screen.{max_update_lines}
use juno_miner.Screen.Layout.{
  following, scan_byte, counted, visible_from, visible_length, bar, repeated,
}
use juno_miner.Screen.Layout.Width.{
  IsText, append-IsText, repeated-IsText, draw_row-IsText, draw_centered-IsText, draw_line-IsText,
}
use juno_miner.Screen.Status.{
  width, corner, Status, to_string, uptime_text, row, centered, draw_box_top, draw_box_bottom,
  title_box, mining_box, network_box, wallet_box, message_line, empty_line, message_lines,
  updates_box, controls, controls_box, print_status_screen, print_system_info,
}
use juno_miner.Screen.Status.Texts.{
  IsPlain, plain-IsText, IsSized, plain-IsSized, append-IsSized, IsSized-le, to_string-IsSized,
  uptime_text-IsSized, epoch_display-IsSized, mode_display-IsSized, status_display-IsSized,
}

-- Two bars and 72 characters
abbrev pub IsLine : Bytes → Type 0
IsLine line = IsText line 74

top-IsLine : (title : Bytes) → All IsPlain title → length title ≤ 70 → IsLine (draw_box_top title)
unfolding draw_box_top visible_from scan_byte counted following
top-IsLine title plain short =
    draw_line-IsText title (corner 0x8c) (corner 0x90) (corner 0x80) width
      (plain-IsText title plain) (refl, refl) (refl, refl) (refl, refl) (omega (arith, short))

bottom-IsLine : IsLine draw_box_bottom
unfolding draw_box_bottom visible_from scan_byte counted following
bottom-IsLine =
    draw_line-IsText [] (corner 0x94) (corner 0x98) (corner 0x80) width (refl, refl) (refl, refl)
      (refl, refl) (refl, refl) (omega arith)

row-IsLine :
    (label value : Bytes)
    → All IsPlain label
    → length label ≤ 20
    → IsSized value 50
    → IsLine (row label value)
row-IsLine label value plain short (n, t, small) =
    draw_row-IsText label value (length label) n width (plain-IsText label plain) t
      (omega (arith, short, small))

centered-IsLine :
    (text color : Bytes) → IsSized text 72 → IsText color 0 → IsLine (centered text color)
centered-IsLine text color (n, t, small) c = draw_centered-IsText text color n width t c small

space-IsText : IsText (codes " ") 1
unfolding visible_from scan_byte counted following
space-IsText = (refl, refl)

bar-IsText : IsText bar 1
unfolding visible_from scan_byte counted following
bar-IsText = (refl, refl)

spaces-IsText : (n : ℕ) → IsText (repeated n (codes " ")) n
spaces-IsText n =
    subst (IsText (repeated n (codes " "))) (omega arith)
      (repeated-IsText n (codes " ") 1 space-IsText)

message_line-IsLine : (message : Bytes) → IsSized message 70 → IsLine (message_line message)
unfolding message_line
message_line-IsLine message (n, (ends, wide), small) =
    subst (IsText (message_line message)) (omega (arith, wide, small)) (
      append-IsText bar _ 1 _ bar-IsText (
        append-IsText (codes " ") _ 1 _ space-IsText (
          append-IsText message _ n _ (ends, wide)
            (append-IsText _ _ (70 - visible_length message) _
              (spaces-IsText (70 - visible_length message))
              (append-IsText (codes " ") bar 1 1 space-IsText bar-IsText)))))

empty_line-IsLine : IsLine empty_line
empty_line-IsLine =
    append-IsText bar _ 1 _ bar-IsText
      (append-IsText _ bar width 1 (spaces-IsText width) bar-IsText)

message_lines-IsLine :
    (lines : ℕ) (messages : List Bytes)
    → All (λ (message : Bytes). IsSized message 70) messages
    → All IsLine (message_lines lines messages)
unfolding message_lines
message_lines-IsLine zero messages h = tt
message_lines-IsLine (suc lines) [] h = (empty_line-IsLine, message_lines-IsLine lines [] tt)
message_lines-IsLine (suc lines) (message ∷ messages) (p, ps) =
    (message_line-IsLine message p, message_lines-IsLine lines messages ps)

-- Numbers of 64 bits, a time of 31, and texts that leave room for their labels
pub record IsShowable (s : Status) : Type 0 where
  pub current_height : s.current_height < 2 ^ 64
  pub seed_height : s.seed_height < 2 ^ 64
  pub seed_hash : All IsByte s.seed_hash
  pub hash_count : s.hash_count < 2 ^ 64
  pub blocks_mined : s.blocks_mined < 2 ^ 64
  pub uptime_seconds : s.uptime_seconds < 2 ^ 31
  pub num_threads : s.num_threads < 2 ^ 64
  pub status : IsSized s.status 40
  pub local_hashrate : IsSized s.local_hashrate 50
  pub network_hashrate : IsSized s.network_hashrate 50
  pub difficulty : IsSized s.difficulty 50
  pub mature_balance : IsSized s.mature_balance 50
  pub immature_balance : IsSized s.immature_balance 50
  pub total_balance : IsSized s.total_balance 50

number-IsSized : (n : ℕ) → n < 2 ^ 64 → IsSized (to_string n) 50
number-IsSized n h = IsSized-le (to_string n) 20 50 (to_string-IsSized n h) (omega arith)

title_box-IsLine : (s : Status) → s.uptime_seconds < 2 ^ 31 → All IsLine (title_box s)
unfolding title_box visible_from scan_byte counted following
title_box-IsLine s h = (
  top-IsLine [] tt (omega arith),
  (
    centered-IsLine (codes "JUNO CASH RANDOMX MINER") _ (23, (refl, refl), omega arith)
        (refl, refl),
    (
      centered-IsLine (codes "Uptime: " ++ uptime_text s.uptime_seconds) _
          (IsSized-le (codes "Uptime: " ++ uptime_text s.uptime_seconds) (8 + 20) 72
            (append-IsSized (codes "Uptime: ") _ 8 20 (8, (refl, refl), omega arith)
              (uptime_text-IsSized s.uptime_seconds h))
            (omega arith))
          (refl, refl),
      (bottom-IsLine, tt),
    ),
  ),
)

mining_box-IsLine : (s : Status) → IsShowable s → All IsLine (mining_box s)
unfolding mining_box
mining_box-IsLine s v = (
  top-IsLine (codes "MINING") (omega arith) (omega arith),
  (
    row-IsLine (codes "Status") _ (omega arith) (omega arith)
        (status_display-IsSized s.status v.status),
    (
      row-IsLine (codes "Block Height") _ (omega arith) (omega arith)
          (number-IsSized s.current_height v.current_height),
      (
        row-IsLine (codes "RandomX Epoch") _ (omega arith) (omega arith)
            (epoch_display-IsSized s.seed_height s.seed_hash v.seed_height v.seed_hash),
        (
          row-IsLine (codes "Mode") _ (omega arith) (omega arith)
              (mode_display-IsSized s.fast_mode),
          (
            row-IsLine (codes "Threads") _ (omega arith) (omega arith)
                (number-IsSized s.num_threads v.num_threads),
            (
              row-IsLine (codes "Local Hashrate") _ (omega arith) (omega arith) v.local_hashrate,
              (
                row-IsLine (codes "Hashes") _ (omega arith) (omega arith)
                    (number-IsSized s.hash_count v.hash_count),
                (
                  row-IsLine (codes "Blocks Mined") _ (omega arith) (omega arith)
                      (number-IsSized s.blocks_mined v.blocks_mined),
                  (bottom-IsLine, tt),
                ),
              ),
            ),
          ),
        ),
      ),
    ),
  ),
)

network_box-IsLine : (s : Status) → IsShowable s → All IsLine (network_box s)
unfolding network_box
network_box-IsLine s v = (
  top-IsLine (codes "NETWORK") (omega arith) (omega arith),
  (
    row-IsLine (codes "Hashrate") _ (omega arith) (omega arith) v.network_hashrate,
    (
      row-IsLine (codes "Difficulty") _ (omega arith) (omega arith) v.difficulty,
      (bottom-IsLine, tt),
    ),
  ),
)

All-if :
    (b : Bool) (xs ys : List Bytes)
    → All IsLine xs
    → All IsLine ys
    → All IsLine (if b then xs else ys)
All-if true xs ys h k = h
All-if false xs ys h k = k

wallet_box-IsLine : (s : Status) → IsShowable s → All IsLine (wallet_box s)
unfolding wallet_box
wallet_box-IsLine s v = All-if s.no_balance [] _ tt (
  top-IsLine (codes "WALLET") (omega arith) (omega arith),
  (
    row-IsLine (codes "Mature Balance") _ (omega arith) (omega arith) v.mature_balance,
    (
      row-IsLine (codes "Immature Balance") _ (omega arith) (omega arith) v.immature_balance,
      (
        row-IsLine (codes "Total Balance") _ (omega arith) (omega arith) v.total_balance,
        (bottom-IsLine, tt),
      ),
    ),
  ),
)

updates_box-IsLine :
    (update_log : List Bytes)
    → All (λ (message : Bytes). IsSized message 70) update_log
    → All IsLine (updates_box update_log)
unfolding updates_box visible_from scan_byte counted following
updates_box-IsLine [] h = (
  top-IsLine (codes "UPDATES") (omega arith) (omega arith),
  (
    centered-IsLine (codes "(no updates)") _ (12, (refl, refl), omega arith) (refl, refl),
    (bottom-IsLine, tt),
  ),
)
updates_box-IsLine (message ∷ messages) h = (
  top-IsLine (codes "UPDATES") (omega arith) (omega arith),
  All-append IsLine (message_lines max_update_lines (message ∷ messages)) (draw_box_bottom ∷ [])
      (message_lines-IsLine max_update_lines (message ∷ messages) h) (bottom-IsLine, tt),
)

controls_box-IsLine : All IsLine controls_box
unfolding controls_box visible_from scan_byte counted following
controls_box-IsLine = (
  top-IsLine (codes "CONTROLS") (omega arith) (omega arith),
  (centered-IsLine controls [] (50, (refl, refl), omega arith) (refl, refl), (bottom-IsLine, tt)),
)

-- If the texts that are made of doubles, the status and the messages are complete, the messages have at most 70
-- characters, time included, and the others leave room for their labels, then every line of the boxes of the status screen is 74 characters wide, whatever the numbers, the seed and the
-- time are, with the escape sequences not counted and the characters of several bytes counted once.
pub print_status_screen-IsLine :
    (s : Status) (update_log : List Bytes)
    → IsShowable s
    → All (λ (message : Bytes). IsSized message 70) update_log
    → All IsLine (print_status_screen s update_log)
unfolding print_status_screen
print_status_screen-IsLine s update_log v messages =
    let updates = updates_box update_log ++ controls_box in
    let wallet = wallet_box s ++ updates in
    let network = network_box s ++ wallet in
    All-append IsLine (title_box s) (mining_box s ++ network) (title_box-IsLine s v.uptime_seconds)
      (All-append IsLine (mining_box s) network (mining_box-IsLine s v) (
        All-append IsLine (network_box s) wallet (network_box-IsLine s v) (
          All-append IsLine (wallet_box s) updates (wallet_box-IsLine s v) (
            All-append IsLine (updates_box update_log) controls_box
              (updates_box-IsLine update_log messages) controls_box-IsLine))))

-- The same of the box that is written at the start.
pub print_system_info-IsLine :
    (resources : SystemResources)
    → resources.total_ram_mb < 2 ^ 64
    → resources.available_ram_mb < 2 ^ 64
    → resources.cpu_cores < 2 ^ 64
    → resources.optimal_threads < 2 ^ 64
    → All IsLine (print_system_info resources)
unfolding print_system_info
print_system_info-IsLine resources total available cores optimal = (
  top-IsLine (codes "SYSTEM RESOURCES") (omega arith) (omega arith),
  (
    row-IsLine (codes "CPU Cores") _ (omega arith) (omega arith)
        (number-IsSized resources.cpu_cores cores),
    (
      row-IsLine (codes "Total RAM") _ (omega arith) (omega arith)
          (megabytes resources.total_ram_mb total),
      (
        row-IsLine (codes "Available RAM") _ (omega arith) (omega arith)
            (megabytes resources.available_ram_mb available),
        (
          row-IsLine (codes "Optimal Threads") _ (omega arith) (omega arith)
              (number-IsSized resources.optimal_threads optimal),
          (bottom-IsLine, tt),
        ),
      ),
    ),
  ),
)
  where
    megabytes : (n : ℕ) → n < 2 ^ 64 → IsSized (to_string n ++ codes " MB") 50
    megabytes n h =
        IsSized-le (to_string n ++ codes " MB") (20 + 3) 50
          (append-IsSized (to_string n) (codes " MB") 20 3 (to_string-IsSized n h)
            (plain-IsSized (codes " MB") 3 (omega arith) (omega arith)))
          (omega arith)
