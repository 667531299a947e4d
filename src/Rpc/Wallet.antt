-- ===== src/Rpc/Wallet.antt =====
-- src/rpc_client.cpp: `get_wallet_balance`, and src/main.cpp: the refresh of the statistics in the mining loop. The
-- arithmetic of doubles and of `int64_t` is a parameter.
use juno_miner.Base.{
  suc, ◌≤◌, ◌<◌, ◌≡◌, refl, ◌⊎◌, inl, inr, Bool, true, false, Option, none, some, [], arith,
  if◌then◌else◌, length, Outcome, ◌>>=◌, Ensures, Ensures-bind, Ensures-eq-ok, Ensures-intro,
  returns, ok,
}
use Prim.Native.String.{String}
use juno_miner.Text.{codes}
use juno_miner.Json.{Json}
use juno_miner.Rpc.{RpcClient, Node, call, get_mining_info}
use juno_miner.Rpc.Outcomes.{ErrorText, call-last_error}

-- `to_zatoshis` is `(int64_t)(x * 100000000.0)`, and `to_coins` is `x / 100000000.0`; the conversion and the sum
-- are undefined where an `int64_t` does not hold the result.
pub record Numbers (json : Json) : Type 1 where
  pub Double : Type 0
  pub Int64 : Type 0
  pub as_double : json.Value → Outcome Double
  pub to_zatoshis : Double → Outcome Int64
  pub to_coins : Int64 → Double
  pub zero_zatoshis : Int64
  pub add : Int64 → Int64 → Outcome Int64

-- The members that `get_wallet_balance` writes into its result
pub record Balance (A : Type 0) : Type 0 where
  pub transparent_mature : A
  pub transparent_immature : A
  pub transparent_total : A

-- The variables of the mining loop that the status screen shows
pub record Statistics (A : Type 0) : Type 0 where
  pub network_hashrate : A
  pub difficulty : A
  pub mature_balance : A
  pub immature_balance : A
  pub total_balance : A

module _ (json : Json) (node : Node json) (numbers : Numbers json) where
  open json use {Value, is_member, member}
  open numbers use {Double, Int64, as_double, to_zatoshis, to_coins, zero_zatoshis, add}

  unfoldable pub read_zatoshis : Value → String → Outcome Int64
  read_zatoshis wallet_info key = do
    present ← is_member wallet_info key
    if present
        then (do value ← member wallet_info key; coins ← as_double value; to_zatoshis coins)
        else ok zero_zatoshis

  unfoldable pub read_balance : Option Value → Outcome (Balance Int64)
  unfolding read_zatoshis
  read_balance none = ok (record {
    transparent_mature = zero_zatoshis;
    transparent_immature = zero_zatoshis;
    transparent_total = zero_zatoshis;
  })
  read_balance (some wallet_info) = do
    mature ← read_zatoshis wallet_info "balance"
    immature ← read_zatoshis wallet_info "immature_balance"
    total ← add mature immature
    ok (record {
      transparent_mature = mature;
      transparent_immature = immature;
      transparent_total = total;
    })

  -- It returns true in any case.
  unfoldable pub get_wallet_balance : Bool → RpcClient → Outcome (RpcClient × Balance Int64)
  unfolding read_balance
  get_wallet_balance handle client = do
    (after, wallet_info) ← call json node handle (codes "getwalletinfo") node.empty_array client
    balance ← read_balance wallet_info
    ok (after, balance)

  -- `if (info.isMember(key)) x = info[key].asDouble();`
  unfoldable pub read_double : Value → String → Double → Outcome Double
  read_double info key old = do
    present ← is_member info key
    if present then (do value ← member info key; as_double value) else ok old

  unfoldable pub refresh_network : Option Value → Statistics Double → Outcome (Statistics Double)
  unfolding read_double
  refresh_network none stats = ok stats
  refresh_network (some mining_info) stats = do
    network_hashrate ← read_double mining_info "networksolps" stats.network_hashrate
    difficulty ← read_double mining_info "difficulty" stats.difficulty
    ok (record stats { network_hashrate = network_hashrate; difficulty = difficulty })

  abbrev pub with_balance : Balance Int64 → Statistics Double → Statistics Double
  with_balance balance stats = record stats {
    mature_balance = to_coins balance.transparent_mature;
    immature_balance = to_coins balance.transparent_immature;
    total_balance = to_coins balance.transparent_total;
  }

  -- The refresh in the mining loop, with whether each call gets a handle
  unfoldable pub refresh_statistics :
      (no_balance first_handle second_handle : Bool)
      → RpcClient
      → Statistics Double
      → Outcome (RpcClient × Statistics Double)
  unfolding refresh_network get_wallet_balance
  refresh_statistics no_balance first_handle second_handle client stats = do
    (after, mining_info) ← get_mining_info json node first_handle client
    refreshed ← refresh_network mining_info stats
    if no_balance then ok (after, refreshed) else (do
      (last, balance) ← get_wallet_balance second_handle after
      ok (last, with_balance balance refreshed))

  -- A balance that was read, whose total is its sum, or zeros, with an error text that tells of the failed call
  abbrev pub IsReported : RpcClient × Balance Int64 → Type 0
  IsReported (after, balance) =
      ((after.last_error ≡ [])
        × (add balance.transparent_mature balance.transparent_immature
            ≡ ok balance.transparent_total))
      ⊎ ((0 < length after.last_error)
          × (balance.transparent_mature ≡ zero_zatoshis)
          × (balance.transparent_immature ≡ zero_zatoshis)
          × (balance.transparent_total ≡ zero_zatoshis))

  read_balance-IsReported :
      (after : RpcClient) (wallet_info : Option Value)
      → ErrorText json node wallet_info after.last_error
      → Ensures
          (λ (balance : Balance Int64). IsReported (after, balance))
          (read_balance wallet_info)
  unfolding read_balance
  read_balance-IsReported after none told = returns (inr (told, refl, refl, refl))
  read_balance-IsReported after (some wallet_info) told =
      Ensures-bind (read_zatoshis wallet_info "balance") _ λ (mature : Int64) _.
        Ensures-bind (read_zatoshis wallet_info "immature_balance") _ λ (immature : Int64) _.
          Ensures-bind (add mature immature) _ λ (total : Int64) e. returns (inl (told, e))

  -- What `get_wallet_balance` promises, beside the request numbers that it takes
  abbrev Asked : RpcClient → RpcClient × Balance Int64 → Type 0
  Asked client (after, balance) =
      IsReported (after, balance) × (after.request_id ≤ suc client.request_id)

  get_wallet_balance-Asked :
      (handle : Bool) (client : RpcClient)
      → Ensures (Asked client) (get_wallet_balance handle client)
  unfolding get_wallet_balance
  get_wallet_balance-Asked handle client = Ensures-bind _ _ λ (after, wallet_info) e.
      let (_, _, one, told) =
        call-last_error json node handle (codes "getwalletinfo") node.empty_array client after
          wallet_info e in
      Ensures-bind (read_balance wallet_info) _ λ (balance : Balance Int64) f.
        returns (Ensures-eq-ok (read_balance-IsReported after wallet_info told) f, one)

  -- If `get_wallet_balance` ends normally, then either the call succeeded, and the total is the sum of the two
  -- balances; or it failed, which the client's error text tells, and all three are zero.
  pub get_wallet_balance-IsReported :
      (handle : Bool) (client : RpcClient) → Ensures IsReported (get_wallet_balance handle client)
  get_wallet_balance-IsReported handle client =
      Ensures-intro _ λ result e. (Ensures-eq-ok (get_wallet_balance-Asked handle client) e).0

  abbrev SameBalance : Statistics Double → Statistics Double → Type 0
  SameBalance old new =
      (new.mature_balance ≡ old.mature_balance)
      × (new.immature_balance ≡ old.immature_balance)
      × (new.total_balance ≡ old.total_balance)

  refresh_network-SameBalance :
      (mining_info : Option Value) (stats : Statistics Double)
      → Ensures (SameBalance stats) (refresh_network mining_info stats)
  unfolding refresh_network
  refresh_network-SameBalance none stats = returns (refl, refl, refl)
  refresh_network-SameBalance (some mining_info) stats =
      Ensures-bind (read_double mining_info "networksolps" stats.network_hashrate) _
        λ (rate : Double) _.
          Ensures-bind (read_double mining_info "difficulty" stats.difficulty) _
            λ (difficulty : Double) _. returns (refl, refl, refl)

  -- What a refresh promises on whether the balance is asked for
  abbrev pub Refreshed :
      Bool → RpcClient → Statistics Double → RpcClient × Statistics Double → Type 0
  Refreshed true client stats (after, new) =
      (after.request_id ≤ suc client.request_id)
      × (new.mature_balance ≡ stats.mature_balance)
      × (new.immature_balance ≡ stats.immature_balance)
      × (new.total_balance ≡ stats.total_balance)
  Refreshed false client stats (after, new) =
      (after.request_id ≤ suc (suc client.request_id))
      × (balance : Balance Int64) × IsReported (after, balance)
      × (new.mature_balance ≡ to_coins balance.transparent_mature)
      × (new.immature_balance ≡ to_coins balance.transparent_immature)
      × (new.total_balance ≡ to_coins balance.transparent_total)

  -- A refresh that ends normally asks the node at most once and leaves the balances as they are where the balance is switched
  -- off; else it asks twice at most, and shows a balance whose total is the sum of its parts, or zeros where the
  -- client's error text tells that the wallet did not answer.
  pub refresh_statistics-Refreshed :
      (no_balance first_handle second_handle : Bool) (client : RpcClient)
      (stats : Statistics Double)
      → Ensures
          (Refreshed no_balance client stats)
          (refresh_statistics no_balance first_handle second_handle client stats)
  unfolding refresh_statistics get_mining_info
  refresh_statistics-Refreshed no_balance first_handle second_handle client stats =
      Ensures-bind _ _ λ (after, mining_info) e.
        let (_, _, one, _) =
          call-last_error json node first_handle (codes "getmininginfo") node.empty_array client
            after mining_info e in
        Ensures-bind (refresh_network mining_info stats) _ λ (refreshed : Statistics Double) f.
          by_switch no_balance after refreshed one
            (Ensures-eq-ok (refresh_network-SameBalance mining_info stats) f)
    where
      by_switch :
          (off : Bool) (after : RpcClient) (refreshed : Statistics Double)
          → after.request_id ≤ suc client.request_id
          → SameBalance stats refreshed
          → Ensures (Refreshed off client stats) (
              if off then ok (after, refreshed) else (do
                (last, balance) ← get_wallet_balance second_handle after
                ok (last, with_balance balance refreshed)))
      by_switch true after refreshed one (mature, immature, total) =
          returns (one, mature, immature, total)
      by_switch false after refreshed one same =
          Ensures-bind (get_wallet_balance second_handle after) _ λ (last, balance) e.
            let (reported, again) =
              Ensures-eq-ok (get_wallet_balance-Asked second_handle after) e in
            returns (omega (arith, one, again), balance, reported, refl, refl, refl)
