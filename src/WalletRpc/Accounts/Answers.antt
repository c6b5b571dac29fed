-- ===== src/WalletRpc/Accounts/Answers.antt =====
-- What `getAddress` of wallet/MoneroWalletRpc.ts returns.
use qwertycoin_ts.Common.{
  ℕ, suc, ◌≡◌, inl, inr, refl, sym, ap, ◌∙◌, subst, true, List, map, Option, none, some, ==_refl,
  Text, All, Bool-cases,
}
use qwertycoin_ts.Common.Result.{Result, ok-injective, ok, err, ◌>>=◌, AllOk}
use qwertycoin_ts.WalletRpc.Accounts.{
  RpcSubaddress, Subaddress, CallError, Server, SubaddressMap, Cache, add_addresses,
  known_addresses, cache_addresses, of_account, keep_result, fetch_subaddresses, get_subaddresses,
  is_listed, lookup_address, cached_or_fetched, get_address, then_call,
}
use qwertycoin_ts.WalletRpc.Accounts.Coherent.{known_addresses-Agrees, get_subaddresses-IsCoherent}
use qwertycoin_ts.WalletRpc.Accounts.Entries.{
  Book, Agrees, AgreesAt, IsCoherent, IsReported, IsListing, Names, Reports, IsComplete, IsServed,
  add_addresses-Agrees, add_addresses-named, of_account-Listing, Reports-Names,
}

then_call-value :
    {E A : Type 0} (called : Cache × Result (CallError E) A) (a : A)
    → called.1 ≡ ok a
    → (then_call called (λ b filled. (filled, ok (some b)))).1 ≡ ok (some a)
unfolding then_call
then_call-value (cache, err e) a h = absurd (cc)
then_call-value (cache, ok b) a h = ap (λ b. ok (some b)) (ok-injective h)

module _ {E : Type 0} (server : Server E) (book : Book) (a : ℕ) (rs : List RpcSubaddress)
    (served : IsServed server book) (replied : server.get_address (some a) none ≡ ok rs) where
  listed : List Subaddress
  listed = map (of_account (some a)) rs

  filled : Cache → SubaddressMap
  filled cache = add_addresses listed (known_addresses (cache (some a)))

  get_subaddresses-filled :
      (cache : Cache)
      → get_subaddresses server (some a) none true cache
        ≡ (cache_addresses (some a) listed cache, ok listed)
  unfolding get_subaddresses fetch_subaddresses listed
  get_subaddresses-filled cache =
      ap (λ reply. keep_result (some a) cache (reply >>= λ rs. ok (map (of_account (some a)) rs)))
        replied

  cache_addresses-filled :
      (cache : Cache) → cache_addresses (some a) listed cache (some a) ≡ some (filled cache)
  unfolding cache_addresses filled
  cache_addresses-filled cache = rw (==_refl a) refl

  replied-IsReported : All (IsReported (book a)) rs
  replied-IsReported = subst (AllOk (All (IsReported (book a)))) replied (served.0 a none)

  reported-IsComplete : IsComplete (book a) rs
  reported-IsComplete = subst (AllOk (IsComplete (book a))) replied (served.1 a)

  listed-AreListings : All (IsListing (book a)) listed
  unfolding listed
  listed-AreListings = of_account-Listing (book a) (some a) rs replied-IsReported

  listed-Names : (i : ℕ) → Reports rs i → Names listed i
  unfolding listed
  listed-Names i named = Reports-Names (some a) rs i named

  -- A page that was filled from a whole reply is the book's.
  filled-page : (cache : Cache) (i : ℕ) → IsCoherent book cache → filled cache (some i) ≡ book a i
  unfolding filled
  filled-page cache i h = elim (reported-IsComplete i) [
    | inl no_entry ↦
        elim (add_addresses-Agrees (book a) listed (known_addresses (cache (some a)))
          listed-AreListings (known_addresses-Agrees (book a) (cache (some a)) (h a)) i) [
            | inl missing ↦ missing ∙ sym no_entry
            | inr same ↦ same
          ]
    | inr named ↦
        add_addresses-named (book a) listed (known_addresses (cache (some a))) i listed-AreListings
          (listed-Names i named)
  ]

  lookup_address-page :
      (i : ℕ) (known : SubaddressMap) (cache : Cache)
      → IsCoherent book cache
      → AgreesAt (known (some i)) (book a i)
      → (lookup_address server a i known cache).1 ≡ ok (book a i)
  unfolding lookup_address
  lookup_address-page i known cache h agrees =
      elim (Bool-cases (is_listed server (known (some i)))) [
        | inl shown ↦ rw shown (elim agrees [
          | inl none_known ↦ absurd (cc (rw none_known at shown))
          | inr same ↦ ap ok same
        ])
        | inr missing ↦
            rw (missing, get_subaddresses-filled cache, cache_addresses-filled cache)
              (ap ok (filled-page cache i h))
      ]

  cached_or_fetched-page :
      (again : Cache → Cache × Result (CallError E) (Option (Option Text))) (i : ℕ)
      (o : Option SubaddressMap) (cache : Cache)
      → IsCoherent book cache
      → Agrees (book a) o
      → (again (cache_addresses (some a) listed cache)).1 ≡ ok (some (book a i))
      → (cached_or_fetched server again a i o cache).1 ≡ ok (some (book a i))
  unfolding cached_or_fetched then_call
  cached_or_fetched-page again i (some known) cache h agrees later =
      then_call-value (lookup_address server a i known cache) (book a i)
        (lookup_address-page i known cache h (agrees i))
  cached_or_fetched-page again i none cache h agrees later =
      subst (λ p. (then_call p (λ subs filled. again filled)).1 ≡ ok (some (book a i)))
        (sym (get_subaddresses-filled cache)) later

  -- The second call finds the page that the first one cached.
  get_address-filled :
      (fuel i : ℕ) (cache : Cache)
      → IsCoherent book cache
      → IsCoherent book (cache_addresses (some a) listed cache)
      → (get_address server (suc fuel) a i (cache_addresses (some a) listed cache)).1
        ≡ ok (some (book a i))
  unfolding get_address cached_or_fetched
  get_address-filled fuel i cache h filled_h = rw (cache_addresses-filled cache) (
      then_call-value _ (book a i)
        (lookup_address-page i (filled cache) _ filled_h (inr (filled-page cache i h))))

  filled-IsCoherent :
      (cache : Cache)
      → IsCoherent book cache
      → IsCoherent book (cache_addresses (some a) listed cache)
  filled-IsCoherent cache h =
      subst (λ c. IsCoherent book c.0) (get_subaddresses-filled cache)
        (get_subaddresses-IsCoherent server book served.0 (some a) none true cache h)

-- `getAddress` ends after at most one call of itself, and returns the server's address: take a
-- cache whose entries are those of a book, and a server that reports only entries of the book and
-- that answers a request for the whole account, with every entry. Then two calls' fuel or more
-- gives the entry of the book, none where there is no such subaddress.
pub get_address-page :
    {E : Type 0} (server : Server E) (book : Book) (fuel a i : ℕ) (rs : List RpcSubaddress)
    (cache : Cache)
    → IsServed server book
    → server.get_address (some a) none ≡ ok rs
    → IsCoherent book cache
    → (get_address server (suc (suc fuel)) a i cache).1 ≡ ok (some (book a i))
unfolding get_address
get_address-page server book fuel a i rs cache served replied h =
    cached_or_fetched-page server book a rs served replied (get_address server (suc fuel) a i) i
      (cache (some a)) cache h (h a)
      (get_address-filled server book a rs served replied fuel i cache h
        (filled-IsCoherent server book a rs served replied cache h))
