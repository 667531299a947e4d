-- ===== src/Rpc/Outcomes.antt =====
-- src/rpc_client.cpp: what a caller may conclude from the outcome of `call` and `submit_block`.
use juno_miner.Base.{
  ℕ, suc, ◌-◌, ◌^◌, ◌≤◌, ◌<◌, ◌≡◌, refl, sym, Bool, true, false, Option, none, some, [], ◌++◌,
  arith, leb, if◌then◌else◌, length, Bytes, Ensures, Ensures-bind, ok-injective, Ensures-eq-ok,
  Ensures-if, returns, ok, undefined,
}
use juno_miner.Text.{codes}
use juno_miner.Json.{Json}
use juno_miner.Rpc.{
  RpcClient, Node, Transfer, failed, received, Parsed, value, syntax, error_text, is_error,
  read_result, read_response, read_parsed, read_transfer, call,
}

-- A text that a message starts with
abbrev NonEmpty : Bytes → Type 0
NonEmpty text = 0 < length text

module _ (json : Json) (node : Node json) where
  open json use {Value, is_member, member, as_string}
  open node use {perform, parse}

  -- The error text that goes with a call's outcome
  abbrev pub ErrorText : Option Value → Bytes → Type 0
  ErrorText none text = NonEmpty text
  ErrorText (some result) text = text ≡ []

  -- What `call` promises: where it asked, with the next number, and an error text just where it failed
  abbrev Reported : RpcClient → RpcClient × Option Value → Type 0
  Reported client (after, outcome) =
      (after.url ≡ client.url)
      × (client.request_id ≤ after.request_id)
      × (after.request_id ≤ suc client.request_id)
      × ErrorText outcome after.last_error

  error_text-NonEmpty : (error : Value) → Ensures NonEmpty (error_text json node error)
  unfolding error_text
  error_text-NonEmpty error = Ensures-bind (is_member error "message") _ λ (has_message : Bool) _.
      Ensures-bind _ _ λ (as_text : Bool) _.
        Ensures-if as_text
          (λ _. Ensures-bind (member error "message") _ λ (message : Value) _.
            Ensures-bind (as_string message) _
              λ (text : Bytes) _. returns {a = codes "RPC error: " ++ text} (omega arith))
          (λ _. returns {a = codes "RPC error: " ++ node.write error} (omega arith))

  -- The client after a request has taken its number
  abbrev Sent : RpcClient → RpcClient → Type 0
  Sent client sent =
      (sent.url ≡ client.url)
      × (client.request_id ≤ sent.request_id)
      × (sent.request_id ≤ suc client.request_id)
      × (sent.last_error ≡ [])

  fail-Ensures :
      (client sent : RpcClient) (message : Bytes)
      → Sent client sent
      → NonEmpty message
      → Ensures (Reported client) (ok (record sent { last_error = message }, none))
  fail-Ensures client sent message (e, h, k, clean) long = returns (e, h, k, long)

  read_result-Reported :
      (client sent : RpcClient) (response : Value)
      → Sent client sent
      → Ensures (Reported client) (read_result json node sent response)
  unfolding read_result
  read_result-Reported client sent response (e, h, k, clean) =
      Ensures-bind (is_member response "result") _ λ (present : Bool) _.
        Ensures-if present
          (λ _.
            Ensures-bind (member response "result") _
              λ (result : Value) _. returns (e, h, k, clean))
          (λ _.
            fail-Ensures client sent (codes "Invalid RPC response: no result field")
              (e, h, k, clean) (omega arith))

  read_response-Reported :
      (client sent : RpcClient) (response : Value)
      → Sent client sent
      → Ensures (Reported client) (read_response json node sent response)
  unfolding read_response
  read_response-Reported client sent response clean =
      Ensures-bind (is_error json node response) _ λ (refused : Bool) _.
        Ensures-if refused
          (λ _. Ensures-bind (member response "error") _ λ (error : Value) _.
            Ensures-bind (error_text json node error) _ λ (text : Bytes) found.
              fail-Ensures client sent text clean (Ensures-eq-ok (error_text-NonEmpty error) found))
          (λ _. read_result-Reported client sent response clean)

  read_parsed-Reported :
      (client sent : RpcClient) (parsed : Parsed Value)
      → Sent client sent
      → Ensures (Reported client) (read_parsed json node sent parsed)
  unfolding read_parsed
  read_parsed-Reported client sent (syntax errors) (e, h, k, clean) = returns (e, h, k, omega arith)
  read_parsed-Reported client sent (value response) clean =
      read_response-Reported client sent response clean

  read_transfer-Reported :
      (client sent : RpcClient) (transfer : Transfer)
      → Sent client sent
      → Ensures (Reported client) (read_transfer json node sent transfer)
  unfolding read_transfer
  read_transfer-Reported client sent (failed message) (e, h, k, clean) =
      returns (e, h, k, omega arith)
  read_transfer-Reported client sent (received text) clean =
      read_parsed-Reported client sent (parse text) clean

  next_id-eq-ok : (b : Bool) (m id : ℕ) → (if b then undefined else ok m) ≡ ok id → id ≡ m
  next_id-eq-ok true m id e = cc
  next_id-eq-ok false m id e = sym (ok-injective e)

  sent :
      (client : RpcClient) (id : ℕ)
      → id ≡ suc client.request_id
      → Sent client (record client { request_id = id; last_error = [] })
  sent client id e = (refl, omega arith, omega arith, refl)

  call-Ensures :
      (handle : Bool) (method : Bytes) (params : Value) (client : RpcClient)
      → Ensures (Reported client) (call json node handle method params client)
  unfolding call
  call-Ensures false method params client = returns (refl, omega arith, omega arith, omega arith)
  call-Ensures true method params client = Ensures-bind _ _ λ id taken.
      read_transfer-Reported client (record client { request_id = id; last_error = [] }) _
        (sent client id (next_id-eq-ok (leb (2 ^ 31 - 1) client.request_id) _ id taken))

  -- If `call` ends, normally, then it has kept the client's URL and taken at most one request number, and the
  -- error text of the client is empty where a result was written and not empty where none was.
  pub call-last_error :
      (handle : Bool) (method : Bytes) (params : Value) (client after : RpcClient)
      (outcome : Option Value)
      → call json node handle method params client ≡ ok (after, outcome)
      → (after.url ≡ client.url)
        × (client.request_id ≤ after.request_id)
        × (after.request_id ≤ suc client.request_id)
        × ErrorText outcome after.last_error
  call-last_error handle method params client after outcome e =
      Ensures-eq-ok (call-Ensures handle method params client) e
