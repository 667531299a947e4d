-- ===== src/Rpc.antt =====
-- src/rpc_client.h and src/rpc_client.cpp: `RPCClient`. libcurl, the JSON writer and the JSON parser are
-- the parameters of `Node`; `request_id_` tells the requests of one client apart.
pub mod Outcomes
pub mod Submit
pub mod Failures
pub mod Wallet
mod Tests
use juno_miner.Base.{
  ℕ, suc, ◌-◌, ◌^◌, Bool, true, false, ◌||◌, not, Option, none, some, [], ◌++◌, leb, if◌then◌else◌,
  Bytes, bytes_eq, Outcome, ◌>>=◌, ◌>>◌, ok, undefined,
}
use Prim.Native.String.{String}
use juno_miner.Text.{codes}
use juno_miner.Json.{Json}

pub record RpcClient : Type 0 where
  pub url : Bytes
  pub user : Bytes
  pub password : Bytes
  pub request_id : ℕ
  pub last_error : Bytes

-- `curl_easy_perform`: an error with its text, or the response's text
pub data Transfer : Type 0 where
  failed : Bytes → Transfer
  received : Bytes → Transfer

pub data Parsed (A : Type 0) : Type 0 where
  value : A → Parsed A
  syntax : Bytes → Parsed A

-- libcurl and JsonCpp, as far as the client calls them; `Int` stands for `int`.
pub record Node (json : Json) : Type 1 where
  pub Int : Type 0
  pub as_int : json.Value → Outcome Int
  pub of_int : Int → json.Value
  pub object_of : String → json.Value → json.Value
  pub perform : RpcClient → ℕ → Bytes → json.Value → Transfer
  pub parse : Bytes → Parsed json.Value
  pub write : json.Value → Bytes
  pub empty_array : json.Value
  pub append : json.Value → json.Value → json.Value
  pub of_bytes : Bytes → json.Value
  pub of_uint : ℕ → json.Value

module _ (json : Json) (node : Node json) where
  open json use {Value, is_member, member, as_string, is_null, is_string}
  open node use {
    Int, as_int, of_int, object_of, perform, parse, write, empty_array, append, of_bytes, of_uint,
  }

  -- The client after the call, and the result that was written, if the call returned true
  abbrev pub Called : Type 0
  Called = RpcClient × Option Value

  abbrev fail : RpcClient → Bytes → Outcome Called
  fail client message = ok (record client { last_error = message }, none)

  -- `response["error"]`, as the message for `last_error_`
  unfoldable pub error_text : Value → Outcome Bytes
  error_text error = do
    has_message ← is_member error "message"
    as_text ←
        if has_message
        then (do message ← member error "message"; ok (is_string message))
        else ok false
    if as_text
        then (do
          message ← member error "message"
          text ← as_string message
          ok (codes "RPC error: " ++ text))
        else ok (codes "RPC error: " ++ write error)

  -- `response.isMember("error") && !response["error"].isNull()`
  unfoldable pub is_error : Value → Outcome Bool
  is_error response = do
    present ← is_member response "error"
    if present then (do error ← member response "error"; ok (not (is_null error))) else ok false

  unfoldable pub read_result : RpcClient → Value → Outcome Called
  read_result client response = do
    present ← is_member response "result"
    if present
        then (do result ← member response "result"; ok (client, some result))
        else fail client (codes "Invalid RPC response: no result field")

  -- What `call` makes of a parsed response
  unfoldable pub read_response : RpcClient → Value → Outcome Called
  unfolding error_text is_error read_result
  read_response client response = do
    refused ← is_error response
    if refused
        then (do error ← member response "error"; text ← error_text error; fail client text)
        else read_result client response

  unfoldable pub read_parsed : RpcClient → Parsed Value → Outcome Called
  unfolding read_response
  read_parsed client (syntax errors) =
      fail client (codes "Failed to parse JSON response: " ++ errors)
  read_parsed client (value response) = read_response client response

  -- What `call` makes of the transfer
  unfoldable pub read_transfer : RpcClient → Transfer → Outcome Called
  unfolding read_parsed
  read_transfer client (failed message) = fail client (codes "RPC request failed: " ++ message)
  read_transfer client (received text) = read_parsed client (parse text)

  -- `++request_id_` on an `int`
  abbrev next_id : ℕ → Outcome ℕ
  next_id id = if leb (2 ^ 31 - 1) id then undefined else ok (suc id)

  -- `handle` is whether `curl_easy_init` gave one; that is before the request takes its number.
  unfoldable pub call : (handle : Bool) → Bytes → Value → RpcClient → Outcome Called
  unfolding read_transfer
  call false method params client = fail client (codes "Failed to initialize CURL")
  call true method params client = do
    id ← next_id client.request_id
    let sent = record client { request_id = id; last_error = [] }
    read_transfer sent (perform sent id method params)

  -- The answer of a method: whether it succeeded, and what it wrote through its reference argument
  abbrev pub Answer : Type 0
  Answer = RpcClient × Bool × Bytes

  abbrev pub is_stored : Bytes → Bool
  is_stored status =
      bytes_eq status (codes "duplicate")
      || (bytes_eq status (codes "inconclusive")
          || bytes_eq status (codes "duplicate-inconclusive"))

  -- What `submit_block` makes of the node's answer
  unfoldable pub read_status : Bytes → Called → Outcome Answer
  read_status result (client, none) = ok (client, false, result)
  read_status result (client, some response) =
      if is_null response
      then ok (client, true, codes "accepted")
      else if is_string response
      then (do status ← as_string response; ok (client, is_stored status, status))
      else ok (client, false, codes "unknown")

  unfoldable pub submit_block : Bool → Bytes → Bytes → RpcClient → Outcome Answer
  unfolding read_status
  submit_block handle hex_data result client =
      call handle (codes "submitblock") (append empty_array (of_bytes hex_data)) client
      >>= read_status result

  -- What the client may write through a reference: the new value, or the old one where it fails
  unfoldable pub read_hash : Bytes → Called → Outcome Answer
  read_hash block_hash (client, none) = ok (client, false, block_hash)
  read_hash block_hash (client, some result) =
      if is_string result
      then (do text ← as_string result; ok (client, true, text))
      else ok (client, false, block_hash)

  unfoldable pub get_block_hash : Bool → ℕ → Bytes → RpcClient → Outcome Answer
  unfolding read_hash
  get_block_hash handle height block_hash client =
      call handle (codes "getblockhash") (append empty_array (of_uint height)) client
      >>= read_hash block_hash

  unfoldable pub read_account : Int → Called → Outcome (RpcClient × Bool × Int)
  read_account account_id (client, none) = ok (client, false, account_id)
  read_account account_id (client, some result) = do
    present ← is_member result "account"
    if present
        then (do account ← member result "account"; id ← as_int account; ok (client, true, id))
        else ok (client, false, account_id)

  unfoldable pub create_new_account : Bool → Int → RpcClient → Outcome (RpcClient × Bool × Int)
  unfolding read_account
  create_new_account handle account_id client =
      call handle (codes "z_getnewaccount") empty_array client >>= read_account account_id

  unfoldable pub read_address : Bytes → Called → Outcome Answer
  read_address address (client, none) = ok (client, false, address)
  read_address address (client, some result) = do
    present ← is_member result "address"
    if present
        then (do found ← member result "address"; text ← as_string found; ok (client, true, text))
        else ok (client, false, address)

  unfoldable pub get_address_for_account : Bool → Int → Bytes → RpcClient → Outcome Answer
  unfolding read_address
  get_address_for_account handle account_id address client =
      call handle (codes "z_getaddressforaccount")
        (append (append empty_array (of_int account_id))
          (append empty_array (of_bytes (codes "p2pkh"))))
        client
      >>= read_address address

  -- The mining address is not sent.
  unfoldable pub get_block_template : Bool → RpcClient → Outcome Called
  get_block_template handle client =
      call handle (codes "getblocktemplate")
        (append empty_array (
          object_of "capabilities" (
            append
              (append (append empty_array (of_bytes (codes "coinbasetxn")))
                (of_bytes (codes "workid")))
              (of_bytes (codes "coinbase/append")))))
        client

  unfoldable pub get_blockchain_info : Bool → RpcClient → Outcome Called
  get_blockchain_info handle client = call handle (codes "getblockchaininfo") empty_array client

  unfoldable pub get_mining_info : Bool → RpcClient → Outcome Called
  get_mining_info handle client = call handle (codes "getmininginfo") empty_array client
