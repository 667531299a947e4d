-- ===== src/Screen/Tests.antt =====
-- Five messages, and a status screen.
use juno_miner.Base.{◌≡◌, refl, true, false, List, [], ◌∷◌, ◌++◌, map, arith, replicate, All, Bytes}
use juno_miner.Text.{codes}
use juno_miner.Screen.{max_update_lines, stamped}
use juno_miner.Screen.Layout.{visible_length, visible_from, following}
use juno_miner.Screen.Status.{message_line, Status, uptime_text, epoch_display, print_status_screen}
use juno_miner.Screen.Status.Texts.{plain-IsSized}
use juno_miner.Screen.Status.Aligned.{IsLine, IsShowable, print_status_screen-IsLine}
use juno_miner.Screen.Messages.{newest, run, add_update_message-newest}

abbrev at_noon : Bytes
at_noon = codes "12:00:00"

abbrev five : List (Bytes × Bytes)
five =
    (at_noon, codes "a")
    ∷ (at_noon, codes "b")
    ∷ (at_noon, codes "c")
    ∷ (at_noon, codes "d")
    ∷ (at_noon, codes "e")
    ∷ []

add_update_message-newest_example :
    run five [] ≡ newest max_update_lines (map (λ m. stamped (m.0) (m.1)) five)
add_update_message-newest_example = add_update_message-newest five

-- The twelfth hour of mining
abbrev showing : Status
showing = record {
  current_height = 123456;
  seed_height = 122880;
  seed_hash = replicate 32 0xab;
  hash_count = 987654321;
  blocks_mined = 3;
  uptime_seconds = 43210;
  num_threads = 16;
  fast_mode = true;
  no_balance = false;
  status = codes "ACTIVE";
  local_hashrate = codes "1.25 KH/s";
  network_hashrate = codes "2.50 MH/s";
  difficulty = codes "42.00";
  mature_balance = codes "1.00000000 JNO";
  immature_balance = codes "0.00000000 JNO";
  total_balance = codes "1.00000000 JNO";
}

showing-IsShowable : IsShowable showing
showing-IsShowable = record {
  current_height = omega arith;
  seed_height = omega arith;
  seed_hash = omega arith;
  hash_count = omega arith;
  blocks_mined = omega arith;
  uptime_seconds = omega arith;
  num_threads = omega arith;
  status = plain-IsSized (codes "ACTIVE") 40 (omega arith) (omega arith);
  local_hashrate = plain-IsSized (codes "1.25 KH/s") 50 (omega arith) (omega arith);
  network_hashrate = plain-IsSized (codes "2.50 MH/s") 50 (omega arith) (omega arith);
  difficulty = plain-IsSized (codes "42.00") 50 (omega arith) (omega arith);
  mature_balance = plain-IsSized (codes "1.00000000 JNO") 50 (omega arith) (omega arith);
  immature_balance = plain-IsSized (codes "0.00000000 JNO") 50 (omega arith) (omega arith);
  total_balance = plain-IsSized (codes "1.00000000 JNO") 50 (omega arith) (omega arith);
}

uptime_shown : uptime_text 43210 ≡ codes "12h 00m 10s"
unfolding uptime_text
uptime_shown = refl

epoch_shown : epoch_display 122880 (replicate 32 0xab) ≡ codes "61 (abababab)"
unfolding epoch_display
epoch_shown = refl

print_status_screen-IsLine_example :
    All IsLine (print_status_screen showing (codes "[12:00:00] Mining started" ∷ []))
print_status_screen-IsLine_example =
    print_status_screen-IsLine showing (codes "[12:00:00] Mining started" ∷ []) showing-IsShowable
      (plain-IsSized (codes "[12:00:00] Mining started") 70 (omega arith) (omega arith), tt)

-- The message with a block's hash, with its time
abbrev hash_message : Bytes
hash_message = codes "[12:00:00] Block hash: " ++ replicate 64 b'0'

hash_message_line : visible_length (message_line hash_message) ≡ 91
unfolding visible_from message_line following
hash_message_line = refl
