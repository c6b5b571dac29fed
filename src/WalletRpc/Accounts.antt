-- ===== src/WalletRpc/Accounts.antt =====
-- The accounts and subaddresses of wallet/MoneroWalletRpc.ts (`getAccounts`, `getAccount`,
-- `createAccount`, `getSubaddresses`, `getSubaddress`, `createSubaddress`, `getAccountIndices`,
-- `getSubaddressIndices`) and its cache of addresses (`addressCache`, `getAddress`). The server is
-- a record of functions: it answers equal requests equally while an operation runs.
mod Converted
mod Merges
pub mod Balances
pub mod Unlocks
pub mod Entries
pub mod Coherent
pub mod Answers
pub mod Addresses
use qwertycoin_ts.Common.{
  ℕ, zero, suc, Bool, true, false, List, [], ◌∷◌, map, Option, none, some, get_elem?, same_num,
  Text, if◌then◌else◌,
}
use qwertycoin_ts.Common.Result.{Result, ok, err, guard, ◌>>=◌, ◌>>◌}
unfoldable pub use Converted.*
unfoldable pub use Merges.*

-- The requests that the operations send, by their parameters.
pub record Server (E : Type 0) : Type 0 where
  pub get_accounts : Option Text → Result (CallError E) (List RpcAccount)
  pub get_address : Option ℕ → Option (List ℕ) → Result (CallError E) (List RpcSubaddress)
  pub get_balance : Option ℕ → Option (List ℕ) → Result (CallError E) (Option (List RpcSubaddress))
  pub get_all_balances : Result (CallError E) (Option (List RpcSubaddress))
  pub create_account : Option Text → Result (CallError E) (Option ℕ × Option Text)
  pub create_address : ℕ → Option Text → Result (CallError E) (Option ℕ × Option Text)

-- A call that changes the cache, then one that uses its value.
unfoldable pub then_call :
    {E A B : Type 0}
    → Cache × Result (CallError E) A
    → (A → Cache → Cache × Result (CallError E) B)
    → Cache × Result (CallError E) B
then_call (cache, err e) next = (cache, err e)
then_call (cache, ok a) next = next a cache

-- The operations of the wallet. Those that fetch addresses also change the cache.
module _ {E : Type 0} (server : Server E) where
  unfoldable pub fetch_subaddresses :
      Option ℕ → Option (List ℕ) → Bool → Result (CallError E) (List Subaddress)
  unfolding transfer_reported without_balance
  fetch_subaddresses account indices skip_balances = do
    addresses ← server.get_address account indices
    let subs = map (of_account account) addresses in
        if skip_balances
        then ok subs
        else (server.get_balance account indices >>= λ reported.
            ok (transfer_reported reported (map without_balance subs)))

  unfoldable pub get_subaddresses :
      Option ℕ → Option (List ℕ) → Bool → Cache → Cache × Result (CallError E) (List Subaddress)
  unfolding fetch_subaddresses cache_addresses
  get_subaddresses account indices skip_balances cache =
      keep_result account cache (fetch_subaddresses account indices skip_balances)

  unfoldable pub get_subaddress :
      ℕ → ℕ → Bool → Cache → Cache × Result (CallError E) (Option Subaddress)
  unfolding get_subaddresses then_call
  get_subaddress account index skip_balances cache =
      then_call (get_subaddresses (some account) (some (index ∷ [])) skip_balances cache)
        (λ subs known. (known, ok (get_elem? subs 0)))

  -- The accounts with their subaddresses; the loop stops at an error.
  abbrev pub with_subaddresses : Account → Option (List Subaddress) → Account
  with_subaddresses account subs = record account { subaddresses = subs }

  unfoldable pub add_subaddresses :
      List RpcAccount → Cache → Cache × Result (CallError E) (List Account)
  unfolding get_subaddresses then_call
  add_subaddresses [] cache = (cache, ok [])
  add_subaddresses (r ∷ rs) cache =
      let account = convert_rpc_account r in
      then_call (get_subaddresses account.index none true cache) (λ subs known.
        then_call (add_subaddresses rs known)
          (λ rest filled. (filled, ok (with_subaddresses account (some subs) ∷ rest))))

  unfoldable pub with_balances : List Account → Result (CallError E) (List Account)
  unfolding merge_reported without_balances
  with_balances accounts = server.get_all_balances >>= λ reported.
      merge_reported reported (map without_balances accounts)

  unfoldable pub get_accounts :
      Bool → Option Text → Bool → Cache → Cache × Result (CallError E) (List Account)
  unfolding add_subaddresses with_balances then_call
  get_accounts include_subaddresses tag skip_balances cache =
      then_call (cache, server.get_accounts tag)
        (λ rs known.
          if include_subaddresses
          then then_call (add_subaddresses rs known) (λ accounts filled.
            (filled, if skip_balances then ok accounts else with_balances accounts))
          else (known, ok (map convert_rpc_account rs)))

  abbrev pub found_account : ℕ → List Account → Result (CallError E) Account
  found_account i [] = err (no_account i)
  found_account i (a ∷ as') = if same_num a.index (some i) then ok a else found_account i as'

  unfoldable pub get_account : ℕ → Bool → Bool → Cache → Cache × Result (CallError E) Account
  unfolding get_accounts get_subaddresses then_call
  get_account i include_subaddresses skip_balances cache =
      then_call (get_accounts false none false cache) (λ accounts known.
        then_call (known, found_account i accounts)
          (λ account kept.
            if include_subaddresses
            then then_call (get_subaddresses (some i) none skip_balances kept)
                (λ subs filled. (filled, ok (with_subaddresses account (some subs))))
            else (kept, ok account)))

  unfoldable pub create_account : Option Text → Result (CallError E) Account
  create_account label = do
    (index, address) ← server.create_account (non_empty label)
    ok (record {
      index = index;
      primary_address = address;
      label = non_empty label;
      balance = some 0;
      unlocked_balance = some 0;
      tag = none;
      subaddresses = none;
    })

  unfoldable pub create_subaddress : ℕ → Option Text → Result (CallError E) Subaddress
  create_subaddress account label = do
    (index, address) ← server.create_address account label
    ok (record {
      account_index = some account;
      index = index;
      address = address;
      balance = some 0;
      unlocked_balance = some 0;
      num_unspent_outputs = some 0;
      label = non_empty label;
      is_used = some false;
      num_blocks_to_unlock = some 0;
    })

  unfoldable pub get_subaddress_indices : Option ℕ → Result (CallError E) (List (Option ℕ))
  get_subaddress_indices account = do
    addresses ← server.get_address account none
    ok (map (λ r. r.address_index) addresses)

  -- `getAddress`: the cache is filled at most twice.
  abbrev pub is_listed : Option Text → Bool
  is_listed none = false
  is_listed (some []) = false
  is_listed (some (c ∷ cs)) = true

  unfoldable pub lookup_address :
      ℕ → ℕ → SubaddressMap → Cache → Cache × Result (CallError E) (Option Text)
  unfolding get_subaddresses then_call
  lookup_address account index known cache =
      if is_listed (known (some index))
      then (cache, ok (known (some index)))
      else then_call (get_subaddresses (some account) none true cache)
          (λ subs filled. (filled, ok (known_addresses (filled (some account)) (some index))))

  unfoldable pub cached_or_fetched :
      (Cache → Cache × Result (CallError E) (Option (Option Text)))
      → ℕ
      → ℕ
      → Option SubaddressMap
      → Cache
      → Cache × Result (CallError E) (Option (Option Text))
  unfolding lookup_address get_subaddresses then_call
  cached_or_fetched again account index (some known) cache =
      then_call (lookup_address account index known cache)
        (λ address filled. (filled, ok (some address)))
  cached_or_fetched again account index none cache =
      then_call (get_subaddresses (some account) none true cache) (λ subs filled. again filled)

  -- The call that the source makes of itself is on fuel; none stands for no fuel left.
  unfoldable pub get_address :
      ℕ → ℕ → ℕ → Cache → Cache × Result (CallError E) (Option (Option Text))
  unfolding cached_or_fetched
  get_address zero account index cache = (cache, ok none)
  get_address (suc fuel) account index cache =
      cached_or_fetched (get_address fuel account index) account index (cache (some account)) cache

-- `clear` on the cache.
abbrev pub no_addresses : Cache
no_addresses account = none
