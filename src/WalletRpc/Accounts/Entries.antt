-- ===== src/WalletRpc/Accounts/Entries.antt =====
-- The entries of the address cache of wallet/MoneroWalletRpc.ts: each is that of an address book.
use qwertycoin_ts.Common.{
  ℕ, ◌≡◌, ◌⊎◌, inl, inr, refl, sym, ◌∙◌, subst, List, [], ◌∷◌, map, Option, none, some, same_num,
  same_num_iff, ==_refl, Text, All, Bool-cases,
}
use qwertycoin_ts.Common.Result.{AllOk}
use qwertycoin_ts.WalletRpc.Accounts.{
  RpcSubaddress, Subaddress, Server, SubaddressMap, Cache, insert, add_addresses, transfer_info,
  transfer_all, transfer_reported, with_balance, with_blocks, without_balance, of_account,
  convert_rpc_subaddress,
}

-- What an address book promises: `address account index`, none where there is no subaddress.
abbrev pub Book : Type 0
Book = ℕ → ℕ → Option Text

-- An entry that is cached is the book's.
abbrev pub AgreesAt : Option Text → Option Text → Type 0
AgreesAt known address = (known ≡ none) ⊎ (known ≡ address)

abbrev pub Agrees : (ℕ → Option Text) → Option SubaddressMap → Type 0
Agrees page none = Unit
Agrees page (some known) = (i : ℕ) → AgreesAt (known (some i)) (page i)

abbrev pub IsCoherent : Book → Cache → Type 0
IsCoherent book cache = (account : ℕ) → Agrees (book account) (cache (some account))

-- An entry of a reply is the book's, and a reply for the whole account has every entry.
abbrev pub IsEntry : (ℕ → Option Text) → Option ℕ → Option Text → Type 0
IsEntry page none address = Unit
IsEntry page (some i) address = address ≡ page i

abbrev pub IsReported : (ℕ → Option Text) → RpcSubaddress → Type 0
IsReported page r = IsEntry page r.address_index r.address

abbrev pub IsListing : (ℕ → Option Text) → Subaddress → Type 0
IsListing page s = IsEntry page s.index s.address

abbrev pub Names : List Subaddress → ℕ → Type 0
Names [] i = ⊥
Names (s ∷ ss) i = (s.index ≡ some i) ⊎ Names ss i

abbrev pub Reports : List RpcSubaddress → ℕ → Type 0
Reports [] i = ⊥
Reports (r ∷ rs) i = (r.address_index ≡ some i) ⊎ Reports rs i

abbrev pub IsComplete : (ℕ → Option Text) → List RpcSubaddress → Type 0
IsComplete page rs = (i : ℕ) → (page i ≡ none) ⊎ Reports rs i

-- A server that answers with nothing but entries of the book.
abbrev pub IsHonest : {E : Type 0} → Server E → Book → Type 0
IsHonest server book =
    (account : ℕ) (indices : Option (List ℕ))
    → AllOk (All (IsReported (book account))) (server.get_address (some account) indices)

abbrev pub IsServed : {E : Type 0} → Server E → Book → Type 0
IsServed server book =
    IsHonest server book
    × ((account : ℕ) → AllOk (IsComplete (book account)) (server.get_address (some account) none))

-- What an insertion leaves at a key.
pub insert-cases {ℓ} :
    {A : Type ℓ} (key : Option ℕ) (a : A) (known : Option ℕ → A) (i : ℕ)
    → ((key ≡ some i) × (insert key a known (some i) ≡ a))
      ⊎ (insert key a known (some i) ≡ known (some i))
insert-cases key a known i = elim (Bool-cases (same_num (some i) key)) [
  | inl same ↦ inl (sym ((same_num_iff (some i) key).0 same), rw same refl)
  | inr other ↦ inr (rw other refl)
]

IsEntry-at :
    (page : ℕ → Option Text) (key : Option ℕ) (address : Option Text) (i : ℕ)
    → IsEntry page key address
    → key ≡ some i
    → address ≡ page i
IsEntry-at page key address i entry at = subst (λ o. IsEntry page o address) at entry

-- Adding the entries of a book to a page of the cache.
module _ (page : ℕ → Option Text) where
  insert-Agrees :
      (key : Option ℕ) (a : Option Text) (known : SubaddressMap) (i : ℕ)
      → IsEntry page key a
      → AgreesAt (known (some i)) (page i)
      → AgreesAt (insert key a known (some i)) (page i)
  insert-Agrees key a known i entry h = elim (insert-cases key a known i) [
    | inl (at, new) ↦ inr (new ∙ IsEntry-at page key a i entry at)
    | inr old ↦ subst (λ o. AgreesAt o (page i)) (sym old) h
  ]

  pub add_addresses-Agrees :
      (ss : List Subaddress) (known : SubaddressMap)
      → All (IsListing page) ss
      → Agrees page (some known)
      → Agrees page (some (add_addresses ss known))
  unfolding add_addresses
  add_addresses-Agrees [] known entries h = h
  add_addresses-Agrees (s ∷ ss) known entries h =
      add_addresses-Agrees ss (insert s.index s.address known) entries.1
        (λ i. insert-Agrees s.index s.address known i entries.0 (h i))

  -- An entry that is the book's stays so, and one that is named becomes so.
  pub add_addresses-kept :
      (ss : List Subaddress) (known : SubaddressMap) (i : ℕ)
      → All (IsListing page) ss
      → known (some i) ≡ page i
      → add_addresses ss known (some i) ≡ page i
  unfolding add_addresses
  add_addresses-kept [] known i entries h = h
  add_addresses-kept (s ∷ ss) known i entries h =
      add_addresses-kept ss (insert s.index s.address known) i entries.1
        (elim (insert-cases s.index s.address known i) [
          | inl (at, new) ↦ new ∙ IsEntry-at page s.index s.address i entries.0 at
          | inr old ↦ old ∙ h
        ])

  pub add_addresses-named :
      (ss : List Subaddress) (known : SubaddressMap) (i : ℕ)
      → All (IsListing page) ss
      → Names ss i
      → add_addresses ss known (some i) ≡ page i
  unfolding add_addresses
  add_addresses-named [] known i entries h = absurd h
  add_addresses-named (s ∷ ss) known i entries h = elim h [
    | inl here ↦
        add_addresses-kept ss (insert s.index s.address known) i entries.1
          (rw (here, ==_refl i) (IsEntry-at page s.index s.address i entries.0 here))
    | inr later ↦ add_addresses-named ss (insert s.index s.address known) i entries.1 later
  ]

  -- The balances touch neither the indices nor the addresses.
  transfer_info-Listing :
      (reported : Subaddress) (ss : List Subaddress)
      → All (IsListing page) ss
      → All (IsListing page) (transfer_info reported ss)
  unfolding transfer_info with_blocks with_balance
  transfer_info-Listing reported [] h = tt
  transfer_info-Listing reported (s ∷ ss) h = (
    elim (Bool-cases (same_num s.index reported.index)) [
      | inl same ↦ rw same h.0
      | inr other ↦ rw other h.0
    ],
    transfer_info-Listing reported ss h.1,
  )

  transfer_all-Listing :
      (rs : List RpcSubaddress) (ss : List Subaddress)
      → All (IsListing page) ss
      → All (IsListing page) (transfer_all rs ss)
  unfolding transfer_all
  transfer_all-Listing [] ss h = h
  transfer_all-Listing (r ∷ rs) ss h =
      transfer_all-Listing rs (transfer_info (convert_rpc_subaddress r) ss)
        (transfer_info-Listing (convert_rpc_subaddress r) ss h)

  pub transfer_reported-Listing :
      (reported : Option (List RpcSubaddress)) (ss : List Subaddress)
      → All (IsListing page) ss
      → All (IsListing page) (transfer_reported reported ss)
  unfolding transfer_reported
  transfer_reported-Listing none ss h = h
  transfer_reported-Listing (some rs) ss h = transfer_all-Listing rs ss h

  pub without_balance-Listing :
      (ss : List Subaddress)
      → All (IsListing page) ss
      → All (IsListing page) (map without_balance ss)
  unfolding without_balance
  without_balance-Listing [] h = tt
  without_balance-Listing (s ∷ ss) h = (h.0, without_balance-Listing ss h.1)

  pub of_account-Listing :
      (account : Option ℕ) (rs : List RpcSubaddress)
      → All (IsReported page) rs
      → All (IsListing page) (map (of_account account) rs)
  unfolding convert_rpc_subaddress
  of_account-Listing account [] h = tt
  of_account-Listing account (r ∷ rs) h = (h.0, of_account-Listing account rs h.1)

pub Reports-Names :
    (account : Option ℕ) (rs : List RpcSubaddress) (i : ℕ)
    → Reports rs i
    → Names (map (of_account account) rs) i
unfolding convert_rpc_subaddress
Reports-Names account [] i h = h
Reports-Names account (r ∷ rs) i h = elim h [
  | inl here ↦ inl here
  | inr later ↦ inr (Reports-Names account rs i later)
]
