-- ===== src/ConnectionManager/Uris.antt =====
-- URIs of the connections of a manager (MoneroConnectionManager.ts): search, removal and addition.
use qwertycoin_ts.Common.{
  ℕ, ◌<◌, ◌≡◌, ◌≢◌, refl, sym, ap, ◌∙◌, true, List, [], ◌∷◌, ◌++◌, Option, none, some, arith, All,
  includes, ◌==◌, Text, same_text, same_text_iff, Bool-cases, inl, inr, subst,
}
use qwertycoin_ts.GenUtils.Arrays.{remove, without, IsSpread, remove-without}
use qwertycoin_ts.RpcConnection.{RpcConnection}
use qwertycoin_ts.ConnectionManager.{update, find_uri}

abbrev pub Heap : Type 0
Heap = ℕ → RpcConnection

-- No connection has the URI.
abbrev pub IsFree : Heap → Option Text → List ℕ → Type 0
IsFree heap uri refs = All (λ r. (heap r).uri ≢ uri) refs

-- No two connections have the same URI.
abbrev pub HasDistinctUris : Heap → List ℕ → Type 0
HasDistinctUris heap [] = Unit
HasDistinctUris heap (r ∷ refs) = IsFree heap (heap r).uri refs × HasDistinctUris heap refs

abbrev pub IsAllocated : ℕ → List ℕ → Type 0
IsAllocated next refs = All (λ r. r < next) refs

module _ (heap : Heap) where
  pub IsFree-of_find_uri :
      (refs : List ℕ) (uri : Option Text) → find_uri heap refs uri ≡ none → IsFree heap uri refs
  unfolding find_uri
  IsFree-of_find_uri [] uri e = tt
  IsFree-of_find_uri (r ∷ refs) uri e =
      ground (arith, same_text_iff (heap r).uri uri, IsFree-of_find_uri refs uri)

  pub find_uri_of_IsFree :
      (refs : List ℕ) (uri : Option Text) → IsFree heap uri refs → find_uri heap refs uri ≡ none
  unfolding find_uri
  find_uri_of_IsFree [] uri h = refl
  find_uri_of_IsFree (r ∷ refs) uri h =
      ground (arith, same_text_iff (heap r).uri uri, find_uri_of_IsFree refs uri h.1)

  pub find_uri_found :
      (refs : List ℕ) (uri : Option Text) {p : ℕ}
      → find_uri heap refs uri ≡ some p
      → (includes refs p ≡ true) × ((heap p).uri ≡ uri)
  unfolding find_uri
  find_uri_found [] uri e = cc
  find_uri_found (r ∷ refs) uri {p} e =
      ground (arith, same_text_iff (heap r).uri uri, find_uri_found refs uri {p = p})

  pub IsFree-append :
      (uri : Option Text) (refs : List ℕ) (r : ℕ)
      → IsFree heap uri refs
      → (heap r).uri ≢ uri
      → IsFree heap uri (refs ++ r ∷ [])
  IsFree-append uri [] r h n = (n, tt)
  IsFree-append uri (x ∷ refs) r h n = (h.0, IsFree-append uri refs r h.1 n)

  pub HasDistinctUris-append :
      (refs : List ℕ) (r : ℕ)
      → HasDistinctUris heap refs
      → IsFree heap (heap r).uri refs
      → HasDistinctUris heap (refs ++ r ∷ [])
  HasDistinctUris-append [] r d f = (tt, tt)
  HasDistinctUris-append (x ∷ refs) r d f = (
    IsFree-append (heap x).uri refs r d.0 (λ e. f.0 (sym e)),
    HasDistinctUris-append refs r d.1 f.1,
  )

  pub IsFree-without :
      (uri : Option Text) (p : ℕ) (refs : List ℕ)
      → IsFree heap uri refs
      → IsFree heap uri (without p refs)
  IsFree-without uri p [] h = tt
  IsFree-without uri p (r ∷ refs) h = ground (arith, IsFree-without uri p refs h.1)

  pub HasDistinctUris-without :
      (p : ℕ) (refs : List ℕ) → HasDistinctUris heap refs → HasDistinctUris heap (without p refs)
  HasDistinctUris-without p [] d = tt
  HasDistinctUris-without p (r ∷ refs) d =
      ground (arith, HasDistinctUris-without p refs d.1, IsFree-without (heap r).uri p refs d.0)

  -- Without the connection that has a URI, the URI is free.
  pub IsFree-without_found :
      (uri : Option Text) (p : ℕ) (refs : List ℕ)
      → HasDistinctUris heap refs
      → find_uri heap refs uri ≡ some p
      → IsFree heap uri (without p refs)
  unfolding find_uri
  IsFree-without_found uri p [] d e = tt
  IsFree-without_found uri p (r ∷ refs) d e = elim (Bool-cases (same_text (heap r).uri uri)) [
    | inl same ↦
        let here : r ≡ p = ground arith in
        let taken : (heap r).uri ≡ uri = (same_text_iff _ _).0 same in
        ground (arith, IsFree-without uri p refs (subst (λ u. IsFree heap u refs) taken d.0))
    | inr other ↦
        let later : find_uri heap refs uri ≡ some p = ground arith in
        ground (arith, IsFree-without_found uri p refs d.1 later, same_text_iff (heap r).uri uri)
  ]

  pub IsSpread-of_HasDistinctUris :
      (p : ℕ) (refs : List ℕ) → HasDistinctUris heap refs → IsSpread p refs
  IsSpread-of_HasDistinctUris p [] d = tt
  IsSpread-of_HasDistinctUris p (r ∷ []) d = tt
  IsSpread-of_HasDistinctUris p (r ∷ s ∷ refs) d = (
    λ e f. d.0.0 (ap (λ x. (heap x).uri) (f ∙ sym e)),
    IsSpread-of_HasDistinctUris p (s ∷ refs) d.1,
  )

  -- So `GenUtils.remove` takes the connection out.
  pub remove_distinct :
      (p : ℕ) (refs : List ℕ) → HasDistinctUris heap refs → (remove refs p).0 ≡ without p refs
  remove_distinct p refs d =
      ap (λ r. r.0) (remove-without refs p (IsSpread-of_HasDistinctUris p refs d))

-- A heap in which every listed connection has the URI that it had.
abbrev pub KeepsUris : Heap → Heap → List ℕ → Type 0
KeepsUris heap heap' refs = All (λ r. (heap' r).uri ≡ (heap r).uri) refs

module _ (heap heap' : Heap) where
  pub IsFree-KeepsUris :
      (uri : Option Text) (refs : List ℕ)
      → KeepsUris heap heap' refs
      → IsFree heap uri refs
      → IsFree heap' uri refs
  IsFree-KeepsUris uri [] k h = tt
  IsFree-KeepsUris uri (r ∷ refs) k h =
      ((λ e. h.0 (sym k.0 ∙ e)), IsFree-KeepsUris uri refs k.1 h.1)

  pub HasDistinctUris-KeepsUris :
      (refs : List ℕ)
      → KeepsUris heap heap' refs
      → HasDistinctUris heap refs
      → HasDistinctUris heap' refs
  HasDistinctUris-KeepsUris [] k d = tt
  HasDistinctUris-KeepsUris (r ∷ refs) k d =
      (rw k.0 (IsFree-KeepsUris (heap r).uri refs k.1 d.0), HasDistinctUris-KeepsUris refs k.1 d.1)

pub KeepsUris-update :
    (heap : Heap) (r : ℕ) (c : RpcConnection) (refs : List ℕ)
    → c.uri ≡ (heap r).uri
    → KeepsUris heap (update heap r c) refs
KeepsUris-update heap r c [] e = tt
KeepsUris-update heap r c (x ∷ refs) e = (kept, KeepsUris-update heap r c refs e)
  where
    kept : (update heap r c x).uri ≡ (heap x).uri
    kept = elim (Bool-cases (x == r)) [
      | inl same ↦ let at : x ≡ r = ground arith in rw same (rw at e)
      | inr other ↦ rw other
    ]

pub KeepsUris-update_fresh :
    (heap : Heap) (next : ℕ) (c : RpcConnection) (refs : List ℕ)
    → IsAllocated next refs
    → KeepsUris heap (update heap next c) refs
KeepsUris-update_fresh heap next c [] a = tt
KeepsUris-update_fresh heap next c (x ∷ refs) a =
    (kept, KeepsUris-update_fresh heap next c refs a.1)
  where
    kept : (update heap next c x).uri ≡ (heap x).uri
    kept = elim (Bool-cases (x == next)) [ inl same ↦ absurd (ground arith) | inr other ↦ rw other ]
