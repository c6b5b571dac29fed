-- ===== src/WalletRpc/Requests.antt =====
-- The request that `getTransfersAux` of wallet/MoneroWalletRpc.ts builds from a query, and
-- `decodeRpcType`, which reads the category of a transfer that the server reports.
pub mod Flags
pub mod Named
pub mod Covers
pub mod Errors
pub mod Refused
use qwertycoin_ts.Common.{
  ℕ, ◌-◌, Bool, true, false, not, ◌&&◌, ◌||◌, List, [], ◌∷◌, ◌++◌, Option, none, some, ltb,
  includes, same_flag, Text, text_eq, codes, if◌then◌else◌,
}
use qwertycoin_ts.Common.Result.{Result, ok, err, guard, ◌>>=◌, ◌>>◌}
use qwertycoin_ts.Queries.{TxData, TxCriteria}
use qwertycoin_ts.Queries.Transfers.{TransferQuery, get_is_outgoing, is_unset}

pub data RequestError : Type 0 where
  contradicts_configuration : RequestError
  subaddress_without_account : RequestError
  unrecognized_type : Text → RequestError

-- The parameters of `get_transfers`: the categories to fetch, the heights and the subaddresses.
pub record Params : Type 0 where
  pub fetch_in : Bool
  pub fetch_out : Bool
  pub fetch_pool : Bool
  pub fetch_pending : Bool
  pub fetch_failed : Bool
  pub min_height : Option ℕ
  pub max_height : Option ℕ
  pub filter_by_height : Bool
  pub all_accounts : Option Bool
  pub account_index : Option ℕ
  pub subaddr_indices : Option (List ℕ)

-- `flag !== value`
abbrev pub differs : Option Bool → Bool → Bool
differs flag value = not (same_flag flag (some value))

abbrev pub is_missing {ℓ} : {A : Type ℓ} → Option A → Bool
is_missing none = true
is_missing (some _) = false

unfoldable pub can_be_confirmed : TxCriteria → Bool
can_be_confirmed q =
    differs q.is_confirmed false
    && differs q.in_tx_pool true
    && differs q.is_failed true
    && differs q.is_relayed false

unfoldable pub can_be_in_tx_pool : TxCriteria → Bool
can_be_in_tx_pool q =
    differs q.is_confirmed true
    && differs q.in_tx_pool false
    && differs q.is_failed true
    && is_missing q.height
    && is_missing q.max_height
    && differs q.is_locked false

unfoldable pub can_be_incoming : TransferQuery → Bool
can_be_incoming q =
    differs q.is_incoming false
    && differs (get_is_outgoing q) true
    && differs q.has_destinations true

unfoldable pub can_be_outgoing : TransferQuery → Bool
can_be_outgoing q = differs (get_is_outgoing q) false && differs q.is_incoming true

unfoldable pub can_be_failed : TxCriteria → Bool
can_be_failed q =
    differs q.is_failed false && differs q.is_confirmed true && differs q.in_tx_pool true

-- The server leaves out the least height itself.
unfoldable pub min_height_param : Option ℕ → Option ℕ
min_height_param none = none
min_height_param (some lo) = if ltb 0 lo then some (lo - 1) else some lo

-- A `Set` in the order of insertion.
unfoldable pub add_index : List ℕ → ℕ → List ℕ
add_index indices i = if includes indices i then indices else indices ++ (i ∷ [])

unfoldable pub add_indices : List ℕ → List ℕ → List ℕ
unfolding add_index
add_indices indices [] = indices
add_indices indices (i ∷ is) = add_indices (add_index indices i) is

unfoldable pub named_indices : Option ℕ → Option (List ℕ) → List ℕ
unfolding add_indices
named_indices none none = []
named_indices none (some is) = add_indices [] is
named_indices (some i) none = i ∷ []
named_indices (some i) (some is) = add_indices (i ∷ []) is

abbrev pub unless_empty : List ℕ → Option (List ℕ)
unless_empty [] = none
unless_empty (i ∷ is) = some (i ∷ is)

unfoldable pub params_for : TransferQuery → TxCriteria → Option ℕ → Option (List ℕ) → Params
unfolding can_be_confirmed can_be_in_tx_pool can_be_incoming can_be_outgoing can_be_failed
    min_height_param
params_for q t account indices = record {
  fetch_in = can_be_incoming q && can_be_confirmed t;
  fetch_out = can_be_outgoing q && can_be_confirmed t;
  fetch_pool = can_be_incoming q && can_be_in_tx_pool t;
  fetch_pending = can_be_outgoing q && can_be_in_tx_pool t;
  fetch_failed = can_be_failed t;
  min_height = min_height_param t.min_height;
  max_height = t.max_height;
  filter_by_height = not (is_missing t.min_height) || not (is_missing t.max_height);
  all_accounts = if is_missing account then some true else none;
  account_index = account;
  subaddr_indices = indices;
}

unfoldable pub with_account : TransferQuery → TxCriteria → Option ℕ → Result RequestError Params
unfolding params_for named_indices
with_account q t none =
    guard (is_missing q.subaddress_index && is_missing q.subaddress_indices)
      subaddress_without_account
    >> ok (params_for q t none none)
with_account q t (some account) = ok (
    params_for q t (some account)
      (unless_empty (named_indices q.subaddress_index q.subaddress_indices)))

-- What `getTransfersAux` sends, or the error that it throws before it sends anything.
unfoldable pub get_transfers_params : TransferQuery → TxCriteria → Result RequestError Params
unfolding with_account can_be_in_tx_pool
get_transfers_params q t =
    guard (not (same_flag t.in_tx_pool (some true) && not (can_be_in_tx_pool t)))
      contradicts_configuration
    >> with_account q t q.account_index

-- The flags that `decodeRpcType` sets.
unfoldable pub with_flags : Bool → Bool → Bool → Bool → Bool → TxData → TxData
with_flags confirmed in_pool relayed failed miner t = record t {
  is_confirmed = some confirmed;
  in_tx_pool = some in_pool;
  is_relayed = some relayed;
  relay = some true;
  is_failed = some failed;
  is_miner_tx = some miner;
}

-- `decodeRpcType`: whether the category is outgoing, and the transaction with its flags.
unfoldable pub decode_rpc_type : Text → TxData → Result RequestError (Bool × TxData)
unfolding with_flags
decode_rpc_type name t =
    if text_eq name (codes "in")
    then ok (false, with_flags true false true false false t)
    else if text_eq name (codes "out")
    then ok (true, with_flags true false true false false t)
    else if text_eq name (codes "pool")
    then ok (false, with_flags false true true false false t)
    else if text_eq name (codes "pending")
    then ok (true, with_flags false true true false false t)
    else if text_eq name (codes "block")
    then ok (false, with_flags true false true false true t)
    else if text_eq name (codes "failed")
    then ok (true, with_flags false false false true false t)
    else err (unrecognized_type name)
