-- ===== src/WalletRpc/Accounts/Addresses.antt =====
-- `getAddress` of wallet/MoneroWalletRpc.ts ends with the address that the server would answer, and
-- every operation on accounts keeps the cache coherent.
use qwertycoin_ts.Common.{
  ℕ, zero, suc, inl, inr, Bool, true, false, List, [], ◌∷◌, Option, none, some, Text, Bool-cases,
}
use qwertycoin_ts.Common.Result.{Result, ok, err}
use qwertycoin_ts.WalletRpc.Accounts.{
  RpcAccount, CallError, Server, SubaddressMap, Cache, get_subaddresses, add_subaddresses,
  get_accounts, get_account, found_account, get_subaddress, is_listed, lookup_address,
  cached_or_fetched, get_address, no_addresses, convert_rpc_account, then_call,
}
use qwertycoin_ts.WalletRpc.Accounts.Entries.{Book, IsCoherent, IsHonest}
use qwertycoin_ts.WalletRpc.Accounts.Coherent.{get_subaddresses-IsCoherent}

-- A call that leaves a coherent cache.
Keeps : {E A : Type 0} → Book → Cache × Result (CallError E) A → Type 0
Keeps book called = IsCoherent book called.0

then_call-Keeps :
    {E A B : Type 0} (book : Book) (called : Cache × Result (CallError E) A)
    (next : A → Cache → Cache × Result (CallError E) B)
    → Keeps book called
    → ((a : A) (cache : Cache) → IsCoherent book cache → Keeps book (next a cache))
    → Keeps book (then_call called next)
unfolding Keeps then_call
then_call-Keeps book (cache, err e) next h k = h
then_call-Keeps book (cache, ok a) next h k = k a cache h

Keeps-cached :
    {E A : Type 0} (book : Book) (cache : Cache) (r : Result (CallError E) A)
    → IsCoherent book cache
    → Keeps book (cache, r)
unfolding Keeps
Keeps-cached book cache r h = h

-- The operations that fill or clear the cache.
pub data CacheCall : Type 0 where
  list_subaddresses : ℕ → Option (List ℕ) → Bool → CacheCall
  find_subaddress : ℕ → ℕ → Bool → CacheCall
  list_accounts : Bool → Option Text → Bool → CacheCall
  find_account : ℕ → Bool → Bool → CacheCall
  find_address : ℕ → ℕ → ℕ → CacheCall
  cleared : CacheCall

module _ {E : Type 0} (server : Server E) where
  unfoldable pub run_call : CacheCall → Cache → Cache
  run_call (list_subaddresses a is skip) cache = (get_subaddresses server (some a) is skip cache).0
  run_call (find_subaddress a i skip) cache = (get_subaddress server a i skip cache).0
  run_call (list_accounts include tag skip) cache = (get_accounts server include tag skip cache).0
  run_call (find_account i include skip) cache = (get_account server i include skip cache).0
  run_call (find_address fuel a i) cache = (get_address server fuel a i cache).0
  run_call cleared cache = no_addresses

  unfoldable pub run_calls : List CacheCall → Cache → Cache
  unfolding run_call
  run_calls [] cache = cache
  run_calls (c ∷ cs) cache = run_calls cs (run_call c cache)

  module _ (book : Book) (honest : IsHonest server book) where
    get_subaddresses-Keeps :
        (account : Option ℕ) (indices : Option (List ℕ)) (skip : Bool) (cache : Cache)
        → IsCoherent book cache
        → Keeps book (get_subaddresses server account indices skip cache)
    unfolding Keeps
    get_subaddresses-Keeps account indices skip cache h =
        get_subaddresses-IsCoherent server book honest account indices skip cache h

    get_subaddress-Keeps :
        (a i : ℕ) (skip : Bool) (cache : Cache)
        → IsCoherent book cache
        → Keeps book (get_subaddress server a i skip cache)
    unfolding get_subaddress
    get_subaddress-Keeps a i skip cache h =
        then_call-Keeps book _ _ (get_subaddresses-Keeps (some a) (some (i ∷ [])) skip cache h)
          (λ subs known k. Keeps-cached book known _ k)

    add_subaddresses-Keeps :
        (rs : List RpcAccount) (cache : Cache)
        → IsCoherent book cache
        → Keeps book (add_subaddresses server rs cache)
    unfolding add_subaddresses convert_rpc_account
    add_subaddresses-Keeps [] cache h = Keeps-cached book cache _ h
    add_subaddresses-Keeps (r ∷ rs) cache h =
        then_call-Keeps book _ _ (get_subaddresses-Keeps r.account_index none true cache h)
          (λ subs known k.
            then_call-Keeps book _ _ (add_subaddresses-Keeps rs known k)
              (λ rest filled l. Keeps-cached book filled _ l))

    get_accounts-Keeps :
        (include : Bool) (tag : Option Text) (skip : Bool) (cache : Cache)
        → IsCoherent book cache
        → Keeps book (get_accounts server include tag skip cache)
    unfolding get_accounts
    get_accounts-Keeps true tag skip cache h =
        then_call-Keeps book _ _ (Keeps-cached book cache (server.get_accounts tag) h)
          (λ rs known k.
            then_call-Keeps book _ _ (add_subaddresses-Keeps rs known k)
              (λ as' filled l. Keeps-cached book filled _ l))
    get_accounts-Keeps false tag skip cache h =
        then_call-Keeps book _ _ (Keeps-cached book cache (server.get_accounts tag) h)
          (λ rs known k. Keeps-cached book known _ k)

    get_account-Keeps :
        (i : ℕ) (include : Bool) (skip : Bool) (cache : Cache)
        → IsCoherent book cache
        → Keeps book (get_account server i include skip cache)
    unfolding get_account
    get_account-Keeps i true skip cache h =
        then_call-Keeps book _ _ (get_accounts-Keeps false none false cache h) (λ as' known k.
          then_call-Keeps book _ _ (Keeps-cached book known (found_account server i as') k)
            (λ a kept l.
              then_call-Keeps book _ _ (get_subaddresses-Keeps (some i) none skip kept l)
                (λ subs filled m. Keeps-cached book filled _ m)))
    get_account-Keeps i false skip cache h =
        then_call-Keeps book _ _ (get_accounts-Keeps false none false cache h) (λ as' known k.
          then_call-Keeps book _ _ (Keeps-cached book known (found_account server i as') k)
            (λ a kept l. Keeps-cached book kept _ l))

    lookup_address-Keeps :
        (a i : ℕ) (known : SubaddressMap) (cache : Cache)
        → IsCoherent book cache
        → Keeps book (lookup_address server a i known cache)
    unfolding lookup_address
    lookup_address-Keeps a i known cache h = elim (Bool-cases (is_listed server (known (some i)))) [
      | inl listed ↦ rw listed (Keeps-cached book cache _ h)
      | inr missing ↦ rw missing (
          then_call-Keeps book _ _ (get_subaddresses-Keeps (some a) none true cache h)
            (λ subs filled m. Keeps-cached book filled _ m))
    ]

    cached_or_fetched-Keeps :
        (again : Cache → Cache × Result (CallError E) (Option (Option Text))) (a i : ℕ)
        (o : Option SubaddressMap) (cache : Cache)
        → ((filled : Cache) → IsCoherent book filled → Keeps book (again filled))
        → IsCoherent book cache
        → Keeps book (cached_or_fetched server again a i o cache)
    unfolding cached_or_fetched
    cached_or_fetched-Keeps again a i none cache k h =
        then_call-Keeps book _ _ (get_subaddresses-Keeps (some a) none true cache h)
          (λ subs filled m. k filled m)
    cached_or_fetched-Keeps again a i (some known) cache k h =
        then_call-Keeps book _ _ (lookup_address-Keeps a i known cache h)
          (λ address filled m. Keeps-cached book filled _ m)

    get_address-Keeps :
        (fuel a i : ℕ) (cache : Cache)
        → IsCoherent book cache
        → Keeps book (get_address server fuel a i cache)
    unfolding get_address
    get_address-Keeps zero a i cache h = Keeps-cached book cache _ h
    get_address-Keeps (suc fuel) a i cache h =
        cached_or_fetched-Keeps (get_address server fuel a i) a i (cache (some a)) cache
          (λ filled m. get_address-Keeps fuel a i filled m) h

    run_call-IsCoherent :
        (c : CacheCall) (cache : Cache) → IsCoherent book cache → IsCoherent book (run_call c cache)
    unfolding run_call Keeps
    run_call-IsCoherent (list_subaddresses a is skip) cache h =
        get_subaddresses-Keeps (some a) is skip cache h
    run_call-IsCoherent (find_subaddress a i skip) cache h = get_subaddress-Keeps a i skip cache h
    run_call-IsCoherent (list_accounts include tag skip) cache h =
        get_accounts-Keeps include tag skip cache h
    run_call-IsCoherent (find_account i include skip) cache h =
        get_account-Keeps i include skip cache h
    run_call-IsCoherent (find_address fuel a i) cache h = get_address-Keeps fuel a i cache h
    run_call-IsCoherent cleared cache h = λ a. tt

-- If every address that the server reports is that of an address book, whether or not it reports
-- all of them, and the entries of the cache are the book's, as those of the empty cache are, then
-- after every sequence of calls that fill or clear the cache, failed ones included, each address
-- that is cached is the book's.
pub run_calls-IsCoherent :
    {E : Type 0} (server : Server E) (book : Book) (calls : List CacheCall) (cache : Cache)
    → IsHonest server book
    → IsCoherent book cache
    → IsCoherent book (run_calls server calls cache)
unfolding run_calls
run_calls-IsCoherent server book [] cache honest h = h
run_calls-IsCoherent server book (c ∷ cs) cache honest h =
    run_calls-IsCoherent server book cs (run_call server c cache) honest
      (run_call-IsCoherent server book honest c cache h)
