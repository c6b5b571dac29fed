-- ===== src/WalletRpc/Accounts/Merges.antt =====
-- The cache of addresses of wallet/MoneroWalletRpc.ts, and how `getSubaddresses` and `getAccounts`
-- merge the balances that the server reports.
use qwertycoin_ts.Common.{
  ℕ, zero, suc, List, [], ◌∷◌, map, Option, none, some, get_elem?, same_num, Text, if◌then◌else◌,
}
use qwertycoin_ts.Common.Result.{Result, ok, err, guard, ◌>>=◌, ◌>>◌}
use qwertycoin_ts.WalletRpc.Accounts.Converted.{
  RpcSubaddress, Subaddress, Account, convert_rpc_subaddress,
}

pub data CallError (E : Type 0) : Type 0 where
  request_failed : E → CallError E
  type_error : CallError E
  accounts_out_of_order : CallError E
  subaddresses_out_of_order : CallError E
  no_account : ℕ → CallError E

-- `addressCache`: by account, the addresses by subaddress.
abbrev pub SubaddressMap : Type 0
SubaddressMap = Option ℕ → Option Text

abbrev pub Cache : Type 0
Cache = Option ℕ → Option SubaddressMap

abbrev pub insert {ℓ} : {A : Type ℓ} → Option ℕ → A → (Option ℕ → A) → Option ℕ → A
insert key value old i = if same_num i key then value else old i

unfoldable pub add_addresses : List Subaddress → SubaddressMap → SubaddressMap
add_addresses [] known = known
add_addresses (s ∷ ss) known = add_addresses ss (insert s.index s.address known)

abbrev pub known_addresses : Option SubaddressMap → SubaddressMap
known_addresses none = λ i. none
known_addresses (some known) = known

unfoldable pub cache_addresses : Option ℕ → List Subaddress → Cache → Cache
unfolding add_addresses
cache_addresses account subs cache =
    insert account (some (add_addresses subs (known_addresses (cache account)))) cache

-- Fields that the balances overwrite when they are reported.
abbrev pub or_kept {ℓ} : {A : Type ℓ} → Option A → Option A → Option A
or_kept none kept = kept
or_kept (some a) kept = some a

unfoldable pub without_balance : Subaddress → Subaddress
without_balance s = record s {
  balance = some 0;
  unlocked_balance = some 0;
  num_unspent_outputs = some 0;
  num_blocks_to_unlock = some 0;
}

unfoldable pub with_balance : Subaddress → Subaddress → Subaddress
with_balance reported s = record s {
  balance = or_kept reported.balance s.balance;
  unlocked_balance = or_kept reported.unlocked_balance s.unlocked_balance;
  num_unspent_outputs = or_kept reported.num_unspent_outputs s.num_unspent_outputs;
}

unfoldable pub with_blocks : Subaddress → Subaddress → Subaddress
unfolding with_balance
with_blocks reported s =
    let merged = with_balance reported s in
    record merged {
      num_blocks_to_unlock = or_kept reported.num_blocks_to_unlock s.num_blocks_to_unlock;
    }

-- The loop over the targets of one reported balance in `getSubaddresses`.
unfoldable pub transfer_info : Subaddress → List Subaddress → List Subaddress
unfolding with_blocks
transfer_info reported [] = []
transfer_info reported (s ∷ ss) =
    (if same_num s.index reported.index then with_blocks reported s else s)
    ∷ transfer_info reported ss

unfoldable pub transfer_all : List RpcSubaddress → List Subaddress → List Subaddress
unfolding transfer_info
transfer_all [] ss = ss
transfer_all (r ∷ rs) ss = transfer_all rs (transfer_info (convert_rpc_subaddress r) ss)

unfoldable pub transfer_reported : Option (List RpcSubaddress) → List Subaddress → List Subaddress
transfer_reported none ss = ss
transfer_reported (some rs) ss = transfer_all rs ss

abbrev pub of_account : Option ℕ → RpcSubaddress → Subaddress
of_account account r = let s = convert_rpc_subaddress r in record s { account_index = account }

abbrev pub keep_result :
    {E : Type 0}
    → Option ℕ
    → Cache
    → Result (CallError E) (List Subaddress)
    → Cache × Result (CallError E) (List Subaddress)
keep_result account cache (err e) = (cache, err e)
keep_result account cache (ok subs) = (cache_addresses account subs cache, ok subs)

-- The merge of one reported balance in `getAccounts`, by position.
unfoldable pub set_elem {ℓ} : {A : Type ℓ} → List A → ℕ → A → List A
set_elem [] i a = []
set_elem (x ∷ xs) zero a = a ∷ xs
set_elem (x ∷ xs) (suc i) a = x ∷ set_elem xs i a

abbrev pub at_index {ℓ} : {A : Type ℓ} → List A → Option ℕ → Option A
at_index xs none = none
at_index xs (some i) = get_elem? xs i

unfoldable pub set_at {ℓ} : {A : Type ℓ} → List A → Option ℕ → A → List A
unfolding set_elem
set_at xs none a = xs
set_at xs (some i) a = set_elem xs i a

unfoldable pub merged_at :
    Subaddress → List Account → Account → List Subaddress → Subaddress → List Account
unfolding set_at with_balance
merged_at reported accounts account subs target =
    set_at accounts reported.account_index (record account {
      subaddresses = some (set_at subs reported.index (with_balance reported target));
    })

module _ {E : Type 0} where
  unfoldable pub found {ℓ} : {A : Type ℓ} → Option A → Result (CallError E) A
  found none = err type_error
  found (some a) = ok a

  unfoldable pub merge_info : Subaddress → List Account → Result (CallError E) (List Account)
  unfolding found merged_at
  merge_info reported accounts = do
    account ← found (at_index accounts reported.account_index)
    guard (same_num reported.account_index account.index) accounts_out_of_order
    subs ← found account.subaddresses
    target ← found (at_index subs reported.index)
    guard (same_num reported.index target.index) subaddresses_out_of_order
    ok (merged_at reported accounts account subs target)

  unfoldable pub merge_all_info :
      List RpcSubaddress → List Account → Result (CallError E) (List Account)
  unfolding merge_info
  merge_all_info [] accounts = ok accounts
  merge_all_info (r ∷ rs) accounts =
      merge_info (convert_rpc_subaddress r) accounts >>= merge_all_info rs

  unfoldable pub merge_reported :
      Option (List RpcSubaddress) → List Account → Result (CallError E) (List Account)
  unfolding merge_all_info
  merge_reported none accounts = ok accounts
  merge_reported (some rs) accounts = merge_all_info rs accounts

unfoldable pub without_balances : Account → Account
unfolding without_balance
without_balances a = record a {
  subaddresses = elim a.subaddresses [ none ↦ none | some subs ↦ some (map without_balance subs) ];
}
