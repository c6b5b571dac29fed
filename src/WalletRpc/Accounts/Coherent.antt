-- ===== src/WalletRpc/Accounts/Coherent.antt =====
-- `getSubaddresses` of wallet/MoneroWalletRpc.ts keeps the address cache coherent.
use qwertycoin_ts.Common.{
  ℕ, inl, inr, refl, sym, subst, Bool, true, false, List, map, Option, none, some, Text, All,
  if◌then◌else◌,
}
use qwertycoin_ts.Common.Result.{Result, ok, err, ◌>>=◌, AllOk, AllOk-always, AllOk-then}
use qwertycoin_ts.WalletRpc.Accounts.{
  Subaddress, CallError, Server, SubaddressMap, Cache, add_addresses, transfer_reported,
  without_balance, known_addresses, cache_addresses, of_account, keep_result, fetch_subaddresses,
  get_subaddresses,
}
use qwertycoin_ts.WalletRpc.Accounts.Entries.{
  Book, Agrees, IsCoherent, IsReported, IsListing, IsHonest, insert-cases, add_addresses-Agrees,
  transfer_reported-Listing, without_balance-Listing, of_account-Listing,
}

-- The cache after a reply for an account.
AreListings : Book → Option ℕ → List Subaddress → Type 0
AreListings book none ss = Unit
AreListings book (some account) ss = All (IsListing (book account)) ss

pub known_addresses-Agrees :
    (page : ℕ → Option Text) (o : Option SubaddressMap)
    → Agrees page o
    → Agrees page (some (known_addresses o))
known_addresses-Agrees page none h i = inl refl
known_addresses-Agrees page (some known) h i = h i

cache_addresses-IsCoherent :
    (book : Book) (account : Option ℕ) (ss : List Subaddress) (cache : Cache)
    → IsCoherent book cache
    → AreListings book account ss
    → IsCoherent book (cache_addresses account ss cache)
unfolding cache_addresses AreListings
cache_addresses-IsCoherent book none ss cache coherent entries a = coherent a
cache_addresses-IsCoherent book (some b) ss cache coherent entries a =
    let known = known_addresses (cache (some b)) in
    let added = some (add_addresses ss known) in
    elim (insert-cases (some b) added cache a) [
      | inl (at, new) ↦ subst (Agrees (book a)) (sym new) (
          subst (λ k. Agrees (book k) added) (cc at)
            (add_addresses-Agrees (book b) ss known entries
              (known_addresses-Agrees (book b) (cache (some b)) (coherent b))))
      | inr old ↦ subst (Agrees (book a)) (sym old) (coherent a)
    ]

keep_result-IsCoherent :
    {E : Type 0} (book : Book) (account : Option ℕ) (cache : Cache)
    (fetched : Result (CallError E) (List Subaddress))
    → IsCoherent book cache
    → AllOk (AreListings book account) fetched
    → IsCoherent book (keep_result account cache fetched).0
keep_result-IsCoherent book account cache (err e) coherent h = coherent
keep_result-IsCoherent book account cache (ok ss) coherent h =
    cache_addresses-IsCoherent book account ss cache coherent h

module _ {E : Type 0} (server : Server E) (book : Book) (honest : IsHonest server book) where
  fetch_subaddresses-AreListings :
      (account : Option ℕ) (indices : Option (List ℕ)) (skip : Bool)
      → AllOk (AreListings book account) (fetch_subaddresses server account indices skip)
  unfolding fetch_subaddresses AreListings
  fetch_subaddresses-AreListings none indices skip =
      AllOk-always (AreListings book none) _ (λ ss. tt)
  fetch_subaddresses-AreListings (some account) indices skip =
      AllOk-then (All (IsReported (book account))) (AreListings book (some account))
        (server.get_address (some account) indices) _ (honest account indices)
        (λ rs entries.
          listings account indices skip (map (of_account (some account)) rs)
            (of_account-Listing (book account) (some account) rs entries))
    where
      listings :
          (account : ℕ) (indices : Option (List ℕ)) (skip : Bool) (ss : List Subaddress)
          → All (IsListing (book account)) ss
          → AllOk (All (IsListing (book account))) (
              if skip
              then ok ss
              else (server.get_balance (some account) indices >>= λ reported.
                  ok (transfer_reported reported (map without_balance ss))))
      listings account indices true ss h = h
      listings account indices false ss h =
          AllOk-then (λ reported. Unit {0}) (All (IsListing (book account)))
            (server.get_balance (some account) indices) _
            (AllOk-always (λ reported. Unit {0}) (server.get_balance (some account) indices)
              (λ r. tt))
            (λ reported u.
              transfer_reported-Listing (book account) reported (map without_balance ss)
                (without_balance-Listing (book account) ss h))

  pub get_subaddresses-IsCoherent :
      (account : Option ℕ) (indices : Option (List ℕ)) (skip : Bool) (cache : Cache)
      → IsCoherent book cache
      → IsCoherent book (get_subaddresses server account indices skip cache).0
  unfolding get_subaddresses
  get_subaddresses-IsCoherent account indices skip cache coherent =
      keep_result-IsCoherent book account cache (fetch_subaddresses server account indices skip)
        coherent (fetch_subaddresses-AreListings account indices skip)
