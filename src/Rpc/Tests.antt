-- ===== src/Rpc/Tests.antt =====
-- A node whose answers are constant.
use juno_miner.Base.{
  ℕ, suc, ◌+◌, ◌*◌, ◌/◌, ◌≤◌, ◌≡◌, refl, true, false, Option, none, some, [], Bytes, Ensures, ok,
  throws, json_error,
}
use package.text.Mathlib.Text.{◌==◌ as str_eq}
use juno_miner.Text.{codes}
use juno_miner.Json.{Json}
use juno_miner.Rpc.{
  RpcClient, Node, received, value, get_mining_info, call, submit_block, read_status, read_transfer,
  read_parsed, read_response, read_result, is_error,
}
use juno_miner.Rpc.Outcomes.{ErrorText, call-last_error}
use juno_miner.Rpc.Wallet.{
  Numbers, Statistics, refresh_network, read_double, get_wallet_balance, read_balance,
  refresh_statistics, Refreshed, refresh_statistics-Refreshed,
}
use juno_miner.Rpc.Submit.{Accepted, submit_block-Accepted}

-- A response without an error whose result is a status; null is the value `none`.
abbrev answers : Json
answers = record {
  Value = Option Bytes;
  is_member = λ v key. ok (str_eq key "result");
  member = λ v key. ok v;
  as_uint = λ v. throws json_error;
  as_uint64 = λ v. throws json_error;
  as_string = λ v. elim v [ none ↦ throws json_error | some text ↦ ok text ];
  is_array = λ v. false;
  is_null = λ v. elim v [ none ↦ true | some text ↦ false ];
  is_string = λ v. elim v [ none ↦ false | some text ↦ true ];
  elements = λ v. [];
}

abbrev status_node : Bytes → Node answers
status_node status = record {
  Int = ℕ;
  as_int = λ v. throws json_error;
  of_int = λ n. none;
  object_of = λ key v. v;
  perform = λ client id method params. received status;
  parse = λ text. value (some text);
  write = λ v. [];
  empty_array = none;
  append = λ v w. v;
  of_bytes = λ text. some text;
  of_uint = λ n. none;
}

abbrev client : RpcClient
client = record {
  url = codes "http://127.0.0.1:8232";
  user = [];
  password = [];
  request_id = 6;
  last_error = codes "stale";
}

abbrev after : RpcClient
after = record client { request_id = 7; last_error = [] }

submitted :
    submit_block answers (status_node (codes "inconclusive")) true (codes "00") [] client
    ≡ ok (after, true, codes "inconclusive")
unfolding submit_block call read_status read_transfer read_parsed read_response read_result is_error
submitted = refl

rejected :
    submit_block answers (status_node (codes "duplicate-invalid")) true (codes "00") [] client
    ≡ ok (after, false, codes "duplicate-invalid")
unfolding submit_block call read_status read_transfer read_parsed read_response read_result is_error
rejected = refl

submit_block-Accepted_example :
    (response : Option Bytes) × (call answers
        (status_node (codes "inconclusive"))
        true
        (codes "submitblock")
        none
        client
      ≡ ok (after, some response))
    × Accepted answers (status_node (codes "inconclusive")) response (codes "inconclusive")
submit_block-Accepted_example =
    submit_block-Accepted answers (status_node (codes "inconclusive")) true (codes "00") []
      (codes "inconclusive") client after submitted

called :
    call answers (status_node (codes "abc")) true (codes "getblockhash") none client
    ≡ ok (after, some (some (codes "abc")))
unfolding call read_transfer read_parsed read_response read_result is_error
called = refl

call-last_error_example :
    (after.url ≡ client.url)
    × (client.request_id ≤ after.request_id)
    × (after.request_id ≤ suc client.request_id)
    × ErrorText answers (status_node (codes "abc")) (some (some (codes "abc"))) after.last_error
call-last_error_example =
    call-last_error answers (status_node (codes "abc")) true (codes "getblockhash") none client
      after (some (some (codes "abc"))) called

-- Whole coins, and zatoshis without bound
abbrev coins : Numbers answers
coins = record {
  Double = ℕ;
  Int64 = ℕ;
  as_double = λ v. ok 3;
  to_zatoshis = λ n. ok (n * 100000000);
  to_coins = λ n. n / 100000000;
  zero_zatoshis = 0;
  add = λ a b. ok (a + b);
}

abbrev shown : Statistics ℕ
shown = record {
  network_hashrate = 7;
  difficulty = 8;
  mature_balance = 9;
  immature_balance = 1;
  total_balance = 10;
}

-- The wallet does not answer: the balance that was shown is replaced by zeros.
balance_lost :
    refresh_statistics answers (status_node (codes "abc")) coins false true false client shown
    ≡ ok (
      record after { last_error = codes "Failed to initialize CURL" },
      record shown { mature_balance = 0; immature_balance = 0; total_balance = 0 },
    )
unfolding refresh_statistics refresh_network get_mining_info read_double get_wallet_balance
    read_balance call read_transfer read_parsed read_response read_result is_error
balance_lost = refl

refresh_statistics-Refreshed_example :
    Ensures
      (Refreshed answers (status_node (codes "abc")) coins false client shown)
      (refresh_statistics answers (status_node (codes "abc")) coins false true false client shown)
refresh_statistics-Refreshed_example =
    refresh_statistics-Refreshed answers (status_node (codes "abc")) coins false true false client
      shown
