-- ===== src/ConnectionManager/Refinement/Lookup.antt =====
-- What the search by URI of MoneroConnectionManager.ts finds after a connection is appended or removed.
use qwertycoin_ts.Common.{
  ℕ, ◌≡◌, ◌≢◌, refl, sym, ◌∙◌, subst, false, List, [], ◌∷◌, ◌++◌, Option, none, some, arith, ◌==◌,
  Text, same_text, same_text_iff, Bool-cases, Option-cases, inl, inr, if◌then◌else◌,
}
use qwertycoin_ts.GenUtils.Arrays.{without}
use qwertycoin_ts.RpcConnection.{RpcConnection}
use qwertycoin_ts.ConnectionManager.{update, find_uri}
use qwertycoin_ts.ConnectionManager.Uris.{
  Heap, HasDistinctUris, IsFree-without_found, find_uri_of_IsFree, find_uri_found,
}

-- An entry of a map is set, or deleted.
abbrev pub put : Option Text → Option ℕ → (Option Text → Option ℕ) → Option Text → Option ℕ
put uri r entries u = if same_text uri u then r else entries u

pub update-uri :
    (heap : Heap) (r : ℕ) (c : RpcConnection)
    → c.uri ≡ (heap r).uri
    → (x : ℕ) → (update heap r c x).uri ≡ (heap x).uri
update-uri heap r c e x = elim (Bool-cases (x == r)) [
  | inl same ↦ let at : x ≡ r = ground arith in rw same (rw at e)
  | inr other ↦ rw other
]

pub find_uri-heap :
    (heap heap' : Heap) (refs : List ℕ) (u : Option Text)
    → ((x : ℕ) → (heap' x).uri ≡ (heap x).uri)
    → find_uri heap' refs u ≡ find_uri heap refs u
unfolding find_uri
find_uri-heap heap heap' [] u e = refl
find_uri-heap heap heap' (r ∷ refs) u e = rw (e r, find_uri-heap heap heap' refs u e) refl

module _ (heap : Heap) where
  find_uri-append :
      (refs : List ℕ) (r : ℕ) (u : Option Text)
      → find_uri heap refs u ≡ none
      → find_uri heap (refs ++ r ∷ []) u ≡ (if same_text (heap r).uri u then some r else none)
  unfolding find_uri
  find_uri-append [] r u e = refl
  find_uri-append (x ∷ refs) r u e = ground (arith, find_uri-append refs r u)

  find_uri-append_found :
      (refs : List ℕ) (r p : ℕ) (u : Option Text)
      → find_uri heap refs u ≡ some p
      → find_uri heap (refs ++ r ∷ []) u ≡ some p
  unfolding find_uri
  find_uri-append_found [] r p u e = absurd (ground arith)
  find_uri-append_found (x ∷ refs) r p u e = ground (arith, find_uri-append_found refs r p u)

  -- A connection whose URI is free is appended.
  pub find_uri-put :
      (refs : List ℕ) (r : ℕ) (u : Option Text)
      → find_uri heap refs (heap r).uri ≡ none
      → find_uri heap (refs ++ r ∷ []) u ≡ put (heap r).uri (some r) (find_uri heap refs) u
  find_uri-put refs r u free = elim (Option-cases (find_uri heap refs u)) [
    | inl e ↦ find_uri-append refs r u e ∙ sym (rw e refl)
    | inr (p, e) ↦
        let other : same_text (heap r).uri u ≡ false =
          ground (arith, same_text_iff (heap r).uri u) in
        find_uri-append_found refs r p u e ∙ sym (rw (other, e) refl)
  ]

  find_uri-without_other :
      (refs : List ℕ) (p : ℕ) (u : Option Text)
      → (heap p).uri ≢ u
      → find_uri heap (without p refs) u ≡ find_uri heap refs u
  unfolding find_uri
  find_uri-without_other [] p u n = refl
  find_uri-without_other (r ∷ refs) p u n =
      ground (arith, find_uri-without_other refs p u n, same_text_iff (heap r).uri u)

  -- The connection that has a URI is removed.
  pub find_uri-delete :
      (refs : List ℕ) (p : ℕ) (uri u : Option Text)
      → HasDistinctUris heap refs
      → find_uri heap refs uri ≡ some p
      → find_uri heap (without p refs) u ≡ put uri none (find_uri heap refs) u
  find_uri-delete refs p uri u d e = elim (Bool-cases (same_text uri u)) [
    | inl same ↦
        let at : uri ≡ u = (same_text_iff _ _).0 same in
        rw same (
          subst (λ x. find_uri heap (without p refs) x ≡ none) at
            (find_uri_of_IsFree heap (without p refs) uri
              (IsFree-without_found heap uri p refs d e)))
    | inr other ↦ rw other (
        find_uri-without_other refs p u
          (λ f. ground (arith, find_uri_found heap refs uri e, same_text_iff uri u)))
  ]
