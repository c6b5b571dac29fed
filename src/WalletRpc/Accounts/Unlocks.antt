-- ===== src/WalletRpc/Accounts/Unlocks.antt =====
-- The blocks to unlock that `getAccounts` of wallet/MoneroWalletRpc.ts reports with its balances.
use qwertycoin_ts.Common.{
  ℕ, zero, suc, ◌≡◌, refl, subst, Bool, true, false, List, [], ◌∷◌, map, Option, none, some,
  same_num, Text, get_elem?, All,
}
use qwertycoin_ts.Common.Result.{Result, ok, err, guard, ◌>>◌, AllOk, AllOk-always, AllOk-then}
use qwertycoin_ts.WalletRpc.Accounts.{
  RpcSubaddress, Subaddress, Account, CallError, Server, Cache, convert_rpc_subaddress,
  without_balance, with_balance, found, at_index, set_at, set_elem, merged_at,
  accounts_out_of_order, subaddresses_out_of_order, merge_info, merge_all_info, merge_reported,
  without_balances, with_balances, add_subaddresses, get_accounts, then_call,
}

abbrev pub IsUnblocked : Subaddress → Type 0
IsUnblocked s = s.num_blocks_to_unlock ≡ some 0

abbrev pub NoBlocks : Option (List Subaddress) → Type 0
NoBlocks none = Unit
NoBlocks (some subs) = All IsUnblocked subs

abbrev pub HasNoBlocks : Account → Type 0
HasNoBlocks a = NoBlocks a.subaddresses

-- Lists that are read and changed at a position.
module _ {A : Type 0} (P : A → Type 0) where
  All-set_elem : (xs : List A) (i : ℕ) (a : A) → All P xs → P a → All P (set_elem xs i a)
  unfolding set_elem
  All-set_elem [] i a h p = tt
  All-set_elem (x ∷ xs) zero a h p = (p, h.1)
  All-set_elem (x ∷ xs) (suc i) a h p = (h.0, All-set_elem xs i a h.1 p)

  All-set_at : (xs : List A) (o : Option ℕ) (a : A) → All P xs → P a → All P (set_at xs o a)
  unfolding set_at
  All-set_at xs none a h p = h
  All-set_at xs (some i) a h p = All-set_elem xs i a h p

  found-elem :
      (E : Type 0) (xs : List A) (i : ℕ) → All P xs → AllOk P (found {E = E} (get_elem? xs i))
  unfolding found
  found-elem E [] i h = tt
  found-elem E (x ∷ xs) zero h = h.0
  found-elem E (x ∷ xs) (suc i) h = found-elem E xs i h.1

  found-at :
      (E : Type 0) (xs : List A) (o : Option ℕ) → All P xs → AllOk P (found {E = E} (at_index xs o))
  unfolding found
  found-at E xs none h = tt
  found-at E xs (some i) h = found-elem E xs i h

AllOk-guard :
    {E A : Type 0} (P : A → Type 0) (test : Bool) (e : E) (m : Result E A)
    → AllOk P m
    → AllOk P (guard test e >> m)
AllOk-guard P true e m h = h
AllOk-guard P false e m h = tt

without_balance-NoBlocks : (subs : List Subaddress) → All IsUnblocked (map without_balance subs)
unfolding without_balance
without_balance-NoBlocks [] = tt
without_balance-NoBlocks (s ∷ ss) = (refl, without_balance-NoBlocks ss)

without_balance-option :
    (o : Option (List Subaddress))
    → NoBlocks (elim o [ none ↦ none | some subs ↦ some (map without_balance subs) ])
without_balance-option none = tt
without_balance-option (some subs) = without_balance-NoBlocks subs

without_balances-HasNoBlocks :
    (accounts : List Account) → All HasNoBlocks (map without_balances accounts)
unfolding without_balances
without_balances-HasNoBlocks [] = tt
without_balances-HasNoBlocks (a ∷ as') =
    (without_balance-option a.subaddresses, without_balances-HasNoBlocks as')

merged_at-HasNoBlocks :
    (reported : Subaddress) (accounts : List Account) (a : Account) (subs : List Subaddress)
    (target : Subaddress)
    → All HasNoBlocks accounts
    → All IsUnblocked subs
    → IsUnblocked target
    → All HasNoBlocks (merged_at reported accounts a subs target)
unfolding merged_at with_balance
merged_at-HasNoBlocks reported accounts a subs target h l m =
    All-set_at HasNoBlocks accounts reported.account_index _ h
      (All-set_at IsUnblocked subs reported.index _ l m)

module _ (E : Type 0) where
  found-NoBlocks :
      (o : Option (List Subaddress)) → NoBlocks o → AllOk (All IsUnblocked) (found {E = E} o)
  unfolding found
  found-NoBlocks none h = tt
  found-NoBlocks (some subs) h = h

  merge_info-HasNoBlocks :
      (reported : Subaddress) (accounts : List Account)
      → All HasNoBlocks accounts
      → AllOk (All HasNoBlocks) (merge_info {E = E} reported accounts)
  unfolding merge_info
  merge_info-HasNoBlocks reported accounts h =
      AllOk-then HasNoBlocks (All HasNoBlocks) (found (at_index accounts reported.account_index)) _
        (found-at HasNoBlocks E accounts reported.account_index h)
        (λ a k.
          AllOk-guard (All HasNoBlocks) (same_num reported.account_index a.index)
            accounts_out_of_order _
            (AllOk-then (All IsUnblocked) (All HasNoBlocks) (found a.subaddresses) _
              (found-NoBlocks a.subaddresses k)
              (λ subs l.
                AllOk-then IsUnblocked (All HasNoBlocks) (found (at_index subs reported.index)) _
                  (found-at IsUnblocked E subs reported.index l)
                  (λ target m.
                    AllOk-guard (All HasNoBlocks) (same_num reported.index target.index)
                      subaddresses_out_of_order (ok (merged_at reported accounts a subs target))
                      (merged_at-HasNoBlocks reported accounts a subs target h l m)))))

  merge_all_info-HasNoBlocks :
      (rs : List RpcSubaddress) (accounts : List Account)
      → All HasNoBlocks accounts
      → AllOk (All HasNoBlocks) (merge_all_info {E = E} rs accounts)
  unfolding merge_all_info
  merge_all_info-HasNoBlocks [] accounts h = h
  merge_all_info-HasNoBlocks (r ∷ rs) accounts h =
      AllOk-then (All HasNoBlocks) (All HasNoBlocks)
        (merge_info (convert_rpc_subaddress r) accounts) _
        (merge_info-HasNoBlocks (convert_rpc_subaddress r) accounts h)
        (λ merged k. merge_all_info-HasNoBlocks rs merged k)

  with_balances-HasNoBlocks :
      (server : Server E) (accounts : List Account)
      → AllOk (All HasNoBlocks) (with_balances server accounts)
  unfolding with_balances merge_reported
  with_balances-HasNoBlocks server accounts =
      AllOk-then (λ reported. Unit {0}) (All HasNoBlocks) server.get_all_balances _
        (AllOk-always (λ reported. Unit {0}) server.get_all_balances (λ r. tt))
        (λ reported u. reported_case reported)
    where
      reported_case :
          (reported : Option (List RpcSubaddress))
          → AllOk
              (All HasNoBlocks)
              (merge_reported {E = E} reported (map without_balances accounts))
      reported_case none = without_balances-HasNoBlocks accounts
      reported_case (some rs) =
          merge_all_info-HasNoBlocks rs (map without_balances accounts)
            (without_balances-HasNoBlocks accounts)

  then_call-AllOk :
      {A B : Type 0} (P : B → Type 0) (called : Cache × Result (CallError E) A)
      (next : A → Cache → Cache × Result (CallError E) B)
      → ((a : A) (cache : Cache) → AllOk P (next a cache).1)
      → AllOk P (then_call called next).1
  unfolding then_call
  then_call-AllOk P (cache, err e) next h = tt
  then_call-AllOk P (cache, ok a) next h = h a cache

-- `getAccounts` with subaddresses and balances: whatever the server reports, every subaddress it
-- returns has 0 blocks to unlock.
pub get_accounts-HasNoBlocks :
    {E : Type 0} (server : Server E) (tag : Option Text) (cache : Cache) (accounts : List Account)
    → (get_accounts server true tag false cache).1 ≡ ok accounts
    → All HasNoBlocks accounts
unfolding get_accounts
get_accounts-HasNoBlocks server tag cache accounts returned =
    subst (AllOk (All HasNoBlocks)) returned (
      then_call-AllOk _ (All HasNoBlocks) (cache, server.get_accounts tag) _
        (λ rs known.
          then_call-AllOk _ (All HasNoBlocks) (add_subaddresses server rs known) _
            (λ as' filled. with_balances-HasNoBlocks _ server as')))
