-- ===== src/WalletRpc/Accounts/Converted.antt =====
-- What the server reports of accounts and subaddresses, and `convertRpcAccount` and
-- `convertRpcSubaddress` of wallet/MoneroWalletRpc.ts. A field that is not reported is undefined.
use qwertycoin_ts.Common.{ℕ, Bool, List, [], ◌∷◌, Option, none, some, Text}

pub record RpcAccount : Type 0 where
  pub account_index : Option ℕ
  pub balance : Option ℕ
  pub unlocked_balance : Option ℕ
  pub base_address : Option Text
  pub tag : Option Text

pub record RpcSubaddress : Type 0 where
  pub account_index : Option ℕ
  pub address_index : Option ℕ
  pub address : Option Text
  pub balance : Option ℕ
  pub unlocked_balance : Option ℕ
  pub num_unspent_outputs : Option ℕ
  pub label : Option Text
  pub used : Option Bool
  pub blocks_to_unlock : Option ℕ

-- A `MoneroSubaddress`.
pub record Subaddress : Type 0 where
  pub account_index : Option ℕ
  pub index : Option ℕ
  pub address : Option Text
  pub balance : Option ℕ
  pub unlocked_balance : Option ℕ
  pub num_unspent_outputs : Option ℕ
  pub label : Option Text
  pub is_used : Option Bool
  pub num_blocks_to_unlock : Option ℕ

-- A `MoneroAccount`.
pub record Account : Type 0 where
  pub index : Option ℕ
  pub primary_address : Option Text
  pub label : Option Text
  pub balance : Option ℕ
  pub unlocked_balance : Option ℕ
  pub tag : Option Text
  pub subaddresses : Option (List Subaddress)

-- A string that is not empty.
abbrev pub non_empty : Option Text → Option Text
non_empty none = none
non_empty (some []) = none
non_empty (some (c ∷ cs)) = some (c ∷ cs)

unfoldable pub convert_rpc_account : RpcAccount → Account
convert_rpc_account r = record {
  index = r.account_index;
  primary_address = r.base_address;
  label = none;
  balance = r.balance;
  unlocked_balance = r.unlocked_balance;
  tag = non_empty r.tag;
  subaddresses = none;
}

unfoldable pub convert_rpc_subaddress : RpcSubaddress → Subaddress
convert_rpc_subaddress r = record {
  account_index = r.account_index;
  index = r.address_index;
  address = r.address;
  balance = r.balance;
  unlocked_balance = r.unlocked_balance;
  num_unspent_outputs = r.num_unspent_outputs;
  label = non_empty r.label;
  is_used = r.used;
  num_blocks_to_unlock = r.blocks_to_unlock;
}
