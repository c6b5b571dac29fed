-- ===== src/Tests/Wallet.antt =====
-- The accounts and the cache of addresses at concrete inputs (MoneroWalletRpc.ts).
use qwertycoin_ts.Common.{
  ℕ, zero, suc, ◌≡◌, inl, inr, ◌⊎◌, map, refl, true, false, List, [], ◌∷◌, Option, none, some, Text,
  codes, All,
}
use qwertycoin_ts.Common.Result.{ok}
use qwertycoin_ts.WalletRpc.Accounts.{
  RpcAccount, RpcSubaddress, Subaddress, Account, Server, no_addresses, convert_rpc_subaddress,
  convert_rpc_account, without_balance, of_account, get_subaddresses, get_accounts, get_address,
}
use qwertycoin_ts.WalletRpc.Accounts.Entries.{Book, IsCoherent, IsReported, Reports, IsServed}
use qwertycoin_ts.WalletRpc.Accounts.Balances.{with_reported, get_subaddresses-balances}
use qwertycoin_ts.WalletRpc.Accounts.Unlocks.{HasNoBlocks, get_accounts-HasNoBlocks}
use qwertycoin_ts.WalletRpc.Accounts.Addresses.{
  run_calls, list_subaddresses, find_address, run_calls-IsCoherent,
}
use qwertycoin_ts.WalletRpc.Accounts.Answers.{get_address-page}

-- A wallet with one account of two subaddresses; the second has a balance.
book : Book
book zero zero = some (codes "a")
book zero (suc zero) = some (codes "b")
book _ _ = none

abbrev entry : ℕ → Option Text → RpcSubaddress
entry i address = record {
  account_index = some 0;
  address_index = some i;
  address = address;
  balance = none;
  unlocked_balance = none;
  num_unspent_outputs = none;
  label = none;
  used = some true;
  blocks_to_unlock = none;
}

abbrev entries : List RpcSubaddress
entries = entry 0 (some (codes "a")) ∷ entry 1 (some (codes "b")) ∷ []

abbrev funds : RpcSubaddress
funds =
    let e = entry 1 none in
    record e {
      balance = some 50;
      unlocked_balance = some 20;
      num_unspent_outputs = some 2;
      blocks_to_unlock = some 7;
    }

abbrev addresses_of : Option ℕ → List RpcSubaddress
addresses_of (some zero) = entries
addresses_of _ = []

abbrev rpc_account : RpcAccount
rpc_account = record {
  account_index = some 0;
  balance = some 50;
  unlocked_balance = some 20;
  base_address = some (codes "a");
  tag = some [];
}

abbrev server : Server (Unit {0})
server = record {
  get_accounts = λ tag. ok (rpc_account ∷ []);
  get_address = λ account indices. ok (addresses_of account);
  get_balance = λ account indices. ok (some (funds ∷ []));
  get_all_balances = ok (some (funds ∷ []));
  create_account = λ label. ok (none, none);
  create_address = λ account label. ok (none, none);
}

server-IsServed : IsServed server book
unfolding book
server-IsServed = (entries_are, entries_all)
  where
    entries_are :
        (account : ℕ) (indices : Option (List ℕ))
        → All (IsReported (book account)) (addresses_of (some account))
    entries_are zero indices = (refl, (refl, tt))
    entries_are (suc a) indices = tt

    entries_all :
        (account i : ℕ) → (book account i ≡ none) ⊎ Reports (addresses_of (some account)) i
    entries_all zero zero = inr (inl refl)
    entries_all zero (suc zero) = inr (inr (inl refl))
    entries_all zero (suc (suc i)) = inl refl
    entries_all (suc a) i = inl refl

run_calls-IsCoherent_example :
    IsCoherent book
      (run_calls server (list_subaddresses 0 none true ∷ find_address 2 0 1 ∷ []) no_addresses)
run_calls-IsCoherent_example =
    run_calls-IsCoherent server book (list_subaddresses 0 none true ∷ find_address 2 0 1 ∷ [])
      no_addresses server-IsServed.0 (λ a. tt)

get_address-page_example : (get_address server 2 0 1 no_addresses).1 ≡ ok (some (book 0 1))
get_address-page_example =
    get_address-page server book 0 0 1 entries no_addresses server-IsServed refl (λ a. tt)

get_subaddresses-balances_example :
    (get_subaddresses server (some 0) none false no_addresses).1
    ≡ ok (map (λ r. with_reported (funds ∷ []) (without_balance (of_account (some 0) r))) entries)
get_subaddresses-balances_example =
    get_subaddresses-balances server (some 0) none no_addresses entries (some (funds ∷ [])) refl
      refl

abbrev unfunded : ℕ → Text → Subaddress
unfunded i address = record {
  account_index = some 0;
  index = some i;
  address = some address;
  balance = some 0;
  unlocked_balance = some 0;
  num_unspent_outputs = some 0;
  label = none;
  is_used = some true;
  num_blocks_to_unlock = some 0;
}

abbrev funded : Account
funded =
    let second = unfunded 1 (codes "b") in
    record {
      index = some 0;
      primary_address = some (codes "a");
      label = none;
      balance = some 50;
      unlocked_balance = some 20;
      tag = none;
      subaddresses = some (
          unfunded 0 (codes "a")
          ∷ (record second {
            balance = some 50;
            unlocked_balance = some 20;
            num_unspent_outputs = some 2;
          })
          ∷ []);
    }

-- The server reports 7 blocks to unlock.
funded_returned : (get_accounts server true none false no_addresses).1 ≡ ok (funded ∷ [])
unfolding get_accounts convert_rpc_subaddress convert_rpc_account
funded_returned = refl

get_accounts-HasNoBlocks_example : All HasNoBlocks (funded ∷ [])
get_accounts-HasNoBlocks_example =
    get_accounts-HasNoBlocks server none no_addresses (funded ∷ []) funded_returned
