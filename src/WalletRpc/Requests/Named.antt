-- ===== src/WalletRpc/Requests/Named.antt =====
-- The subaddresses that the request of `getTransfersAux` names.
use qwertycoin_ts.Common.{
  ℕ, ◌≡◌, ◌↔◌, ◌⊎◌, inl, inr, refl, subst, Bool-cases, List, [], ◌∷◌, ◌++◌, Option, none, some,
  arith, includes, Text,
}
use qwertycoin_ts.Queries.Criteria.{Occurs, IsListed, Wants, includes_iff}
use qwertycoin_ts.Queries.Transfers.{Kind, Destination, incoming, outgoing, TransferQuery}
use qwertycoin_ts.Queries.Transfers.Laws.{IsWantedKind, IsAmong, AreAmong}
use qwertycoin_ts.WalletRpc.Requests.{add_index, add_indices, named_indices, unless_empty}

-- The subaddresses that a transfer touches.
abbrev pub Touches : Kind → ℕ → Type 0
Touches (incoming address index) i = index ≡ some i
Touches (outgoing addresses indices destinations) i =
    (is : List ℕ) × (indices ≡ some is) × Occurs is i

abbrev pub IsTouched : Option (List ℕ) → Kind → Type 0
IsTouched none k = Unit
IsTouched (some is) k = (i : ℕ) × Occurs is i × Touches k i

Occurs-append : (is : List ℕ) (i v : ℕ) → Occurs (is ++ (i ∷ [])) v ↔ (Occurs is v ⊎ (i ≡ v))
Occurs-append [] i v = ground arith
Occurs-append (j ∷ is) i v = ground (arith, Occurs-append is i v)

Occurs-add_index : (is : List ℕ) (i v : ℕ) → (Occurs is v ⊎ (i ≡ v)) → Occurs (add_index is i) v
unfolding add_index
Occurs-add_index is i v h = elim (Bool-cases (includes is i)) [
  | inl known ↦
      rw known (elim h [
        | inl kept ↦ kept
        | inr same ↦ subst (Occurs is) same ((includes_iff is i).0 known)
      ])
  | inr new ↦ rw new ((Occurs-append is i v).1 h)
]

Occurs-add_indices :
    (is js : List ℕ) (v : ℕ) → (Occurs is v ⊎ Occurs js v) → Occurs (add_indices is js) v
unfolding add_indices
Occurs-add_indices is [] v h = elim h [ inl kept ↦ kept | inr none_left ↦ absurd none_left ]
Occurs-add_indices is (j ∷ js) v h = Occurs-add_indices (add_index is j) js v (elim h [
  | inl kept ↦ inl (Occurs-add_index is j v (inl kept))
  | inr later ↦ elim later [
    | inl same ↦ inl (Occurs-add_index is j v (inr same))
    | inr rest ↦ inr rest
  ]
])

module _ (is : Option (List ℕ)) where
  Occurs-named :
      (q : Option ℕ) (v : ℕ)
      → Wants q (some v)
      → IsListed is (some v)
      → (q ≡ none) × (is ≡ none) ⊎ Occurs (named_indices q is) v
  unfolding named_indices
  Occurs-named q v wanted listed = elim wanted [
    | inl free ↦ elim (without is listed) [
      | inl none_listed ↦ inl (free, none_listed)
      | inr found ↦ rw free (inr found)
    ]
    | inr same ↦ rw same (inr (within is))
  ]
    where
      without :
          (is : Option (List ℕ))
          → IsListed is (some v)
          → (is ≡ none) ⊎ Occurs (named_indices none is) v
      without none listed = inl refl
      without (some js) listed = inr (Occurs-add_indices [] js v (inr listed))

      within : (is : Option (List ℕ)) → Occurs (named_indices (some v) is) v
      within none = inl refl
      within (some js) = Occurs-add_indices (v ∷ []) js v (inl (inl refl))

-- The subaddresses that the request names, and one of a transfer that meets the query.
IsTouched-unless_empty :
    (is : List ℕ) (k : Kind) (i : ℕ) → Occurs is i → Touches k i → IsTouched (unless_empty is) k
IsTouched-unless_empty [] k i found touched = tt
IsTouched-unless_empty (j ∷ is) k i found touched = (i, found, touched)

IsTouched-incoming :
    (sub : Option ℕ) (subs : Option (List ℕ)) (address : Option Text) (index : Option ℕ)
    → Wants sub index
    → IsListed subs index
    → IsTouched (unless_empty (named_indices sub subs)) (incoming address index)
unfolding named_indices
IsTouched-incoming none none address none wanted listed = tt
IsTouched-incoming (some i) subs address none wanted listed = ground arith
IsTouched-incoming none (some js) address none wanted listed = absurd listed
IsTouched-incoming sub subs address (some v) wanted listed =
    elim (Occurs-named subs sub v wanted listed) [
      | inl (free, none_listed) ↦ rw (free, none_listed) tt
      | inr found ↦ IsTouched-unless_empty (named_indices sub subs) _ v found refl
    ]

IsTouched-outgoing :
    (sub : Option ℕ) (subs : Option (List ℕ)) (addresses : Option (List Text))
    (indices : Option (List ℕ)) (destinations : Option (List Destination))
    → IsAmong sub indices
    → AreAmong subs indices
    → IsTouched (unless_empty (named_indices sub subs)) (outgoing addresses indices destinations)
unfolding named_indices
IsTouched-outgoing none none addresses indices ds among are = tt
IsTouched-outgoing (some i) subs addresses none ds among are = absurd among
IsTouched-outgoing (some i) none addresses (some known) ds among are =
    (i, inl refl, (known, refl, among))
IsTouched-outgoing (some i) (some js) addresses (some known) ds among are =
    IsTouched-unless_empty (add_indices (i ∷ []) js) _ i
      (Occurs-add_indices (i ∷ []) js i (inl (inl refl))) (known, refl, among)
IsTouched-outgoing none (some js) addresses none ds among are = absurd are
IsTouched-outgoing none (some js) addresses (some known) ds among (a, named, found) =
    IsTouched-unless_empty (add_indices [] js) _ a (Occurs-add_indices [] js a (inr named))
      (known, refl, found)

pub IsTouched-named :
    (q : TransferQuery) (k : Kind)
    → IsWantedKind q k
    → IsTouched (unless_empty (named_indices q.subaddress_index q.subaddress_indices)) k
IsTouched-named q (incoming address index) h =
    IsTouched-incoming q.subaddress_index q.subaddress_indices address index h.0.1 h.1
IsTouched-named q (outgoing addresses indices ds) h =
    IsTouched-outgoing q.subaddress_index q.subaddress_indices addresses indices ds h.0.0.1 h.0.1
