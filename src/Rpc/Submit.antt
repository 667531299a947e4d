-- ===== src/Rpc/Submit.antt =====
-- src/rpc_client.cpp: when `submit_block` reports that the node keeps the block.
use juno_miner.Base.{
  ◌≡◌, refl, sym, ap, ◌∙◌, subst, ◌⊎◌, inl, inr, Bool, true, false, ◌||◌, Option, none, some,
  if◌then◌else◌, Bool-cases, false-≢-true, Bytes, bytes_eq, bytes_eq→eq, Outcome, ◌>>=◌, >>=-eq-ok,
  ok-injective, ok, throws, undefined,
}
use juno_miner.Text.{codes}
use juno_miner.Json.{Json}
use juno_miner.Rpc.{RpcClient, Node, call, submit_block, read_status, is_stored}

-- The statuses of a block that the node has stored
abbrev pub IsStored : Bytes → Type 0
IsStored status =
    (status ≡ codes "duplicate")
    ⊎ ((status ≡ codes "inconclusive") ⊎ (status ≡ codes "duplicate-inconclusive"))

third_of : (a b c : Bool) → a || (b || c) ≡ true → a ≡ false → b ≡ false → c ≡ true
third_of true b c e h k = cc
third_of false true c e h k = cc
third_of false false c e h k = e

bytes_eq-IsStored :
    (status : Bytes)
    → bytes_eq status (codes "duplicate")
        || (bytes_eq status (codes "inconclusive")
            || bytes_eq status (codes "duplicate-inconclusive"))
      ≡ true
    → IsStored status
bytes_eq-IsStored status e = elim (Bool-cases (bytes_eq status (codes "duplicate"))) [
  | inl same ↦ inl (bytes_eq→eq _ _ same)
  | inr other ↦ elim (Bool-cases (bytes_eq status (codes "inconclusive"))) [
    | inl same ↦ inr (inl (bytes_eq→eq _ _ same))
    | inr third ↦ inr (inr (bytes_eq→eq _ _ (third_of _ _ _ e other third)))
  ]
]

module _ (json : Json) (node : Node json) where
  open json use {Value, is_null, is_string, as_string}
  open node use {empty_array, append, of_bytes}

  abbrev Reply : Type 0
  Reply = RpcClient × Bool × Bytes

  -- Why the node's answer counts as a stored block
  abbrev pub Accepted : Value → Bytes → Type 0
  Accepted response status =
      ((is_null response ≡ true) × (status ≡ codes "accepted"))
      ⊎ ((is_string response ≡ true) × (as_string response ≡ ok status) × IsStored status)

  abbrev reply : RpcClient → Bool → Bytes → Outcome Reply
  reply client accepted text = ok (client, accepted, text)

  client_of : {a b : RpcClient} {c d : Bool} {s t : Bytes} → reply a c s ≡ reply b d t → a ≡ b
  client_of e = ap (λ (x : Reply). x.0) (ok-injective e)

  accepted_of : {a b : RpcClient} {c d : Bool} {s t : Bytes} → reply a c s ≡ reply b d t → c ≡ d
  accepted_of e = ap (λ (x : Reply). x.1) (ok-injective e)

  text_of : {a b : RpcClient} {c d : Bool} {s t : Bytes} → reply a c s ≡ reply b d t → s ≡ t
  text_of e = ap (λ (x : Reply). x.2) (ok-injective e)

  inverted :
      (null string : Bool) (reading : Outcome Bytes) (status : Bytes) (sent after : RpcClient)
      → (if null
          then reply sent true (codes "accepted")
          else if string
          then (reading >>= λ text. reply sent (is_stored json node text) text)
          else reply sent false (codes "unknown"))
        ≡ reply after true status
      → (sent ≡ after)
        × (((null ≡ true) × (status ≡ codes "accepted"))
            ⊎ ((string ≡ true) × (reading ≡ ok status) × IsStored status))
  inverted true string reading status sent after e = (client_of e, inl (refl, sym (text_of e)))
  inverted false false reading status sent after e = absurd (false-≢-true (accepted_of e))
  inverted false true (throws x) status sent after e = absurd (cc)
  inverted false true undefined status sent after e = absurd (cc)
  inverted false true (ok text) status sent after e =
      let text_eq = text_of e in
      (
        client_of e,
        inr (refl, ap ok text_eq, subst IsStored text_eq (bytes_eq-IsStored text (accepted_of e))),
      )

  read_status-Accepted :
      (result status : Bytes) (sent after : RpcClient) (outcome : Option Value)
      → read_status json node result (sent, outcome) ≡ ok (after, true, status)
      → (response : Value) × (outcome ≡ some response) × (sent ≡ after) × Accepted response status
  unfolding read_status
  read_status-Accepted result status sent after none e = absurd (false-≢-true (accepted_of e))
  read_status-Accepted result status sent after (some response) e =
      let (same, why) =
        inverted (is_null response) (is_string response) (as_string response) status sent after e in
      (response, refl, same, why)

  -- If `submit_block` ends normally and returns true, then `call` returned a response, and the response is null,
  -- or is a string with one of the statuses "duplicate", "inconclusive" and "duplicate-inconclusive".
  pub submit_block-Accepted :
      (handle : Bool) (hex_data result status : Bytes) (client after : RpcClient)
      → submit_block json node handle hex_data result client ≡ ok (after, true, status)
      → (response : Value) × (call json node handle
            (codes "submitblock")
            (append empty_array (of_bytes hex_data))
            client
          ≡ ok (after, some response))
        × Accepted response status
  unfolding submit_block
  submit_block-Accepted handle hex_data result status client after e =
      let ((sent, outcome), called, finished) =
        >>=-eq-ok
          (call json node handle (codes "submitblock") (append empty_array (of_bytes hex_data))
            client)
          (read_status json node result) e in
      let (response, some_response, same, why) =
        read_status-Accepted result status sent after outcome finished in
      (
        response,
        called
            ∙ ap ok
                (ap (λ (r : RpcClient). (r, outcome)) same ∙ ap (λ o. (after, o)) some_response),
        why,
      )
