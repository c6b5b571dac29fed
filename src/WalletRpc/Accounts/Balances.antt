-- ===== src/WalletRpc/Accounts/Balances.antt =====
-- The balances that `getSubaddresses` and `getAccounts` of wallet/MoneroWalletRpc.ts merge into
-- the subaddresses.
use qwertycoin_ts.Common.{
  ℕ, ◌≡◌, refl, sym, ap, ◌∙◌, Bool, true, false, List, [], ◌∷◌, map, Option, none, some, same_num,
  if◌then◌else◌,
}
use qwertycoin_ts.Common.Result.{ok}
use qwertycoin_ts.WalletRpc.Accounts.{
  RpcSubaddress, Subaddress, Server, Cache, or_kept, of_account, convert_rpc_subaddress,
  without_balance, with_balance, with_blocks, transfer_info, transfer_all, transfer_reported,
  fetch_subaddresses, get_subaddresses,
}

-- The last value of a field that is reported for an index.
abbrev pub last_of {ℓ} :
    {A : Type ℓ} → (RpcSubaddress → Option A) → Option ℕ → List RpcSubaddress → Option A
last_of field i [] = none
last_of field i (r ∷ rs) =
    or_kept (last_of field i rs) (if same_num i r.address_index then field r else none)

-- A subaddress with the balances that are reported for it.
abbrev pub with_reported : List RpcSubaddress → Subaddress → Subaddress
with_reported rs s = record s {
  balance = or_kept (last_of (λ r. r.balance) s.index rs) s.balance;
  unlocked_balance = or_kept (last_of (λ r. r.unlocked_balance) s.index rs) s.unlocked_balance;
  num_unspent_outputs =
      or_kept (last_of (λ r. r.num_unspent_outputs) s.index rs) s.num_unspent_outputs;
  num_blocks_to_unlock =
      or_kept (last_of (λ r. r.blocks_to_unlock) s.index rs) s.num_blocks_to_unlock;
}

abbrev pub entries_of : Option (List RpcSubaddress) → List RpcSubaddress
entries_of none = []
entries_of (some rs) = rs

or_kept_assoc {ℓ} :
    {A : Type ℓ} (a b c : Option A) → or_kept a (or_kept b c) ≡ or_kept (or_kept a b) c
or_kept_assoc none b c = refl
or_kept_assoc (some x) b c = refl

or_kept-none {ℓ} : {A : Type ℓ} (a : Option A) → or_kept a none ≡ a
or_kept-none none = refl
or_kept-none (some x) = refl

or_kept_if {ℓ} :
    {A : Type ℓ} (b : Bool) (a field old : Option A)
    → or_kept (or_kept a (if b then field else none)) old
      ≡ or_kept a (if b then or_kept field old else old)
or_kept_if true a field old = sym (or_kept_assoc a field old)
or_kept_if false a field old = ap (λ o. or_kept o old) (or_kept-none a)

with_blocks_if :
    (b : Bool) (r : RpcSubaddress) (rs : List RpcSubaddress) (s : Subaddress)
    → with_reported rs (if b then with_blocks (convert_rpc_subaddress r) s else s) ≡ (record s {
      balance =
          or_kept
            (last_of (λ r. r.balance) s.index rs)
            (if b then or_kept r.balance s.balance else s.balance);
      unlocked_balance =
          or_kept
            (last_of (λ r. r.unlocked_balance) s.index rs)
            (if b then or_kept r.unlocked_balance s.unlocked_balance else s.unlocked_balance);
      num_unspent_outputs = or_kept (last_of (λ r. r.num_unspent_outputs) s.index rs) (
          if b then or_kept r.num_unspent_outputs s.num_unspent_outputs else s.num_unspent_outputs);
      num_blocks_to_unlock =
          or_kept (last_of (λ r. r.blocks_to_unlock) s.index rs) (
            if b
            then or_kept r.blocks_to_unlock s.num_blocks_to_unlock
            else s.num_blocks_to_unlock);
    })
unfolding with_blocks with_balance convert_rpc_subaddress
with_blocks_if true r rs s = refl
with_blocks_if false r rs s = refl

with_reported-step :
    (r : RpcSubaddress) (rs : List RpcSubaddress) (s : Subaddress)
    → with_reported rs
        (if same_num s.index r.address_index then with_blocks (convert_rpc_subaddress r) s else s)
      ≡ with_reported (r ∷ rs) s
with_reported-step r rs s =
    let b = same_num s.index r.address_index in
    rw
      (
        with_blocks_if b r rs s,
        or_kept_if b (last_of (λ r. r.balance) s.index rs) r.balance s.balance,
        or_kept_if b (last_of (λ r. r.unlocked_balance) s.index rs) r.unlocked_balance
            s.unlocked_balance,
        or_kept_if b (last_of (λ r. r.num_unspent_outputs) s.index rs) r.num_unspent_outputs
            s.num_unspent_outputs,
        or_kept_if b (last_of (λ r. r.blocks_to_unlock) s.index rs) r.blocks_to_unlock
            s.num_blocks_to_unlock,
      )
      refl

map-map {ℓ κ μ} :
    {A : Type ℓ} {B : Type κ} {C : Type μ} (g : B → C) (f : A → B) (h : A → C) (xs : List A)
    → ((x : A) → g (f x) ≡ h x)
    → map g (map f xs) ≡ map h xs
map-map g f h [] same = refl
map-map g f h (x ∷ xs) same = rw (same x, map-map g f h xs same) refl

transfer_info-map :
    (r : RpcSubaddress) (ss : List Subaddress)
    → transfer_info (convert_rpc_subaddress r) ss
      ≡ map
          (λ s.
            if same_num s.index r.address_index
            then with_blocks (convert_rpc_subaddress r) s
            else s)
          ss
unfolding transfer_info convert_rpc_subaddress
transfer_info-map r [] = refl
transfer_info-map r (s ∷ ss) = rw (transfer_info-map r ss) refl

with_reported-nothing : (ss : List Subaddress) → ss ≡ map (with_reported []) ss
with_reported-nothing [] = refl
with_reported-nothing (s ∷ ss) = ap (λ rest. s ∷ rest) (with_reported-nothing ss)

transfer_all-map :
    (rs : List RpcSubaddress) (ss : List Subaddress)
    → transfer_all rs ss ≡ map (with_reported rs) ss
unfolding transfer_all
transfer_all-map [] ss = with_reported-nothing ss
transfer_all-map (r ∷ rs) ss =
    transfer_all-map rs (transfer_info (convert_rpc_subaddress r) ss)
    ∙ ap (map (with_reported rs)) (transfer_info-map r ss)
    ∙ map-map (with_reported rs) _ (with_reported (r ∷ rs)) ss (with_reported-step r rs)

transfer_reported-map :
    (reported : Option (List RpcSubaddress)) (ss : List Subaddress)
    → transfer_reported reported ss ≡ map (with_reported (entries_of reported)) ss
unfolding transfer_reported
transfer_reported-map none ss = with_reported-nothing ss
transfer_reported-map (some rs) ss = transfer_all-map rs ss

-- What `getSubaddresses` returns with balances: the subaddresses that the server lists, in its
-- order, of the account asked for. Each balance, and the counts of outputs and of blocks to unlock,
-- is the last one that the server reports for the subaddress, or 0.
pub get_subaddresses-balances :
    {E : Type 0} (server : Server E) (account : Option ℕ) (indices : Option (List ℕ))
    (cache : Cache) (addresses : List RpcSubaddress) (reported : Option (List RpcSubaddress))
    → server.get_address account indices ≡ ok addresses
    → server.get_balance account indices ≡ ok reported
    → (get_subaddresses server account indices false cache).1
      ≡ ok (
          map
            (λ r. with_reported (entries_of reported) (without_balance (of_account account r)))
            addresses)
unfolding get_subaddresses fetch_subaddresses
get_subaddresses-balances server account indices cache addresses reported listed balances =
    rw (listed, balances)
      (ap ok (
        transfer_reported-map reported (map without_balance (map (of_account account) addresses))
        ∙ ap (map (with_reported (entries_of reported)))
            (map-map without_balance (of_account account) _ addresses (λ r. refl))
        ∙ map-map (with_reported (entries_of reported)) _ _ addresses (λ r. refl)))
