-- ===== src/Rpc/Failures.antt =====
-- src/rpc_client.cpp: the methods that write through a reference leave it alone where they fail.
use juno_miner.Base.{
  ℕ, ◌≡◌, refl, sym, Bool, false, Option, none, some, false-≢-true, Bytes, Ensures, Ensures-bind,
  Ensures-if, returns,
}
use juno_miner.Json.{Json}
use juno_miner.Rpc.{
  RpcClient, Node, read_hash, read_address, read_account, get_block_hash, get_address_for_account,
  create_new_account,
}

-- An answer that is not a success leaves the old value.
abbrev pub Untouched : {A : Type 0} → A → RpcClient × Bool × A → Type 0
Untouched old (client, success, value) = success ≡ false → value ≡ old

module _ (json : Json) (node : Node json) where
  open json use {Value, is_member, member, as_string, is_string}
  open node use {Int, as_int}

  read_hash-Untouched :
      (old : Bytes) (client : RpcClient) (result : Option Value)
      → Ensures (Untouched old) (read_hash json node old (client, result))
  unfolding read_hash
  read_hash-Untouched old client none = returns λ e. refl
  read_hash-Untouched old client (some result) =
      Ensures-if (is_string result)
        (λ _.
          Ensures-bind (as_string result) _
            λ (text : Bytes) _. returns λ e. absurd (false-≢-true (sym e)))
        (λ _. returns λ e. refl)

  read_address-Untouched :
      (old : Bytes) (client : RpcClient) (result : Option Value)
      → Ensures (Untouched old) (read_address json node old (client, result))
  unfolding read_address
  read_address-Untouched old client none = returns λ e. refl
  read_address-Untouched old client (some result) =
      Ensures-bind (is_member result "address") _ λ (present : Bool) _.
        Ensures-if present
          (λ _. Ensures-bind (member result "address") _ λ (value : Value) _.
            Ensures-bind (as_string value) _
              λ (text : Bytes) _. returns λ e. absurd (false-≢-true (sym e)))
          (λ _. returns λ e. refl)

  read_account-Untouched :
      (old : Int) (client : RpcClient) (result : Option Value)
      → Ensures (Untouched old) (read_account json node old (client, result))
  unfolding read_account
  read_account-Untouched old client none = returns λ e. refl
  read_account-Untouched old client (some result) =
      Ensures-bind (is_member result "account") _ λ (present : Bool) _.
        Ensures-if present
          (λ _. Ensures-bind (member result "account") _ λ (value : Value) _.
            Ensures-bind (as_int value) _
              λ (id : Int) _. returns λ e. absurd (false-≢-true (sym e)))
          (λ _. returns λ e. refl)

  -- Where `get_block_hash`, `get_address_for_account` or `create_new_account` ends normally and returns false,
  -- the variable that it was given by reference has its old value.
  pub Untouched-methods :
      (handle : Bool) (height : ℕ) (account old_account : Int) (old_hash old_address : Bytes)
      (client : RpcClient)
      → Ensures (Untouched old_hash) (get_block_hash json node handle height old_hash client)
        × Ensures
            (Untouched old_address)
            (get_address_for_account json node handle account old_address client)
        × Ensures (Untouched old_account) (create_new_account json node handle old_account client)
  unfolding get_block_hash get_address_for_account create_new_account
  Untouched-methods handle height account old_account old_hash old_address client = (
    Ensures-bind _ _ (λ (after, result) _. read_hash-Untouched old_hash after result),
    Ensures-bind _ _ (λ (after, result) _. read_address-Untouched old_address after result),
    Ensures-bind _ _ (λ (after, result) _. read_account-Untouched old_account after result),
  )
