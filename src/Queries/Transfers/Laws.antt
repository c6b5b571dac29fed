-- ===== src/Queries/Transfers/Laws.antt =====
-- What the queries of MoneroTransferQuery.ts accept, and MoneroTxQuery.ts with its children.
use qwertycoin_ts.Common.{
  ℕ, ◌≡◌, ◌≢◌, ◌↔◌, ◌⊎◌, inl, inr, refl, sym, subst, Bool, true, false, not, ◌&&◌, List, [], ◌∷◌,
  Option, none, some, arith, Text,
}
use qwertycoin_ts.Queries.Criteria.{
  Wants, WantsTruth, IsListed, Occurs, ◌⊓◌, &&_iff, text_met_iff, num_met_iff, flag_met,
  presence_met, text_listed_iff, num_listed_iff, includes_text_iff, includes_iff,
}
use qwertycoin_ts.Queries.Transfers.{
  Kind, incoming, outgoing, Transfer, TransferQuery, Destination, is_incoming_kind, text_among,
  num_among, overlap_text, overlap_num, texts_among, nums_among, is_unset, is_known, kind_met,
  meets_transfer,
}

-- The value is named by nothing, or is in the list that is known.
abbrev pub IsAmong : {A : Type 0} → Option A → Option (List A) → Type 0
IsAmong none known = Unit
IsAmong (some a) none = ⊥
IsAmong (some a) (some known) = Occurs known a

abbrev pub Overlaps : {A : Type 0} → List A → List A → Type 0
Overlaps {A} as' known = (a : A) × Occurs as' a × Occurs known a

abbrev pub AreAmong : {A : Type 0} → Option (List A) → Option (List A) → Type 0
AreAmong none known = Unit
AreAmong (some as') none = ⊥
AreAmong (some as') (some known) = Overlaps as' known

text_among_iff :
    (q : Option Text) (known : Option (List Text)) → (text_among q known ≡ true) ↔ IsAmong q known
unfolding text_among
text_among_iff none known = ground arith
text_among_iff (some a) none = ground arith
text_among_iff (some a) (some known) = includes_text_iff known a

num_among_iff :
    (q : Option ℕ) (known : Option (List ℕ)) → (num_among q known ≡ true) ↔ IsAmong q known
unfolding num_among
num_among_iff none known = ground arith
num_among_iff (some a) none = ground arith
num_among_iff (some a) (some known) = includes_iff known a

module _ {A : Type 0} where
  Overlaps-cons_iff :
      (a : A) (as' known : List A)
      → Overlaps (a ∷ as') known ↔ (Occurs known a ⊎ Overlaps as' known)
  Overlaps-cons_iff a as' known = (
    λ (b, found, k). elim found [
      | inl same ↦ inl (subst (Occurs known) (sym same) k)
      | inr rest ↦ inr (b, rest, k)
    ],
    λ h. elim h [ inl k ↦ (a, inl refl, k) | inr (b, rest, k) ↦ (b, inr rest, k) ],
  )

overlap_text_iff : (as' known : List Text) → (overlap_text as' known ≡ true) ↔ Overlaps as' known
unfolding overlap_text
overlap_text_iff [] known = (λ h. absurd (cc), λ h. absurd h.1)
overlap_text_iff (a ∷ as') known =
    ground
      (arith, includes_text_iff known a, overlap_text_iff as' known, Overlaps-cons_iff a as' known)

overlap_num_iff : (ns known : List ℕ) → (overlap_num ns known ≡ true) ↔ Overlaps ns known
unfolding overlap_num
overlap_num_iff [] known = (λ h. absurd (cc), λ h. absurd h.1)
overlap_num_iff (n ∷ ns) known =
    ground (arith, includes_iff known n, overlap_num_iff ns known, Overlaps-cons_iff n ns known)

texts_among_iff : (q known : Option (List Text)) → (texts_among q known ≡ true) ↔ AreAmong q known
unfolding texts_among
texts_among_iff none known = ground arith
texts_among_iff (some as') none = ground arith
texts_among_iff (some as') (some known) = overlap_text_iff as' known

nums_among_iff : (q known : Option (List ℕ)) → (nums_among q known ≡ true) ↔ AreAmong q known
unfolding nums_among
nums_among_iff none known = ground arith
nums_among_iff (some ns) none = ground arith
nums_among_iff (some ns) (some known) = overlap_num_iff ns known

-- Every criterion on the kind of a transfer that is set holds.
abbrev pub IsWantedKind : TransferQuery → Kind → Type 0
IsWantedKind q (incoming address index) =
    (q.has_destinations ≡ none)
    ⊓ Wants q.address address
    ⊓ IsListed q.addresses address
    ⊓ Wants q.subaddress_index index
    ⊓ IsListed q.subaddress_indices index
IsWantedKind q (outgoing addresses indices destinations) =
    IsAmong q.address addresses
    ⊓ AreAmong q.addresses addresses
    ⊓ IsAmong q.subaddress_index indices
    ⊓ AreAmong q.subaddress_indices indices
    ⊓ WantsTruth q.has_destinations (destinations ≢ none)

is_unset_iff : (b : Option Bool) → (is_unset b ≡ true) ↔ (b ≡ none)
is_unset_iff none = ground arith
is_unset_iff (some b) = ground arith

destinations_met_iff :
    (q : Option Bool) (ds : Option (List Destination))
    → (presence_met q (is_known ds) ≡ true) ↔ WantsTruth q (ds ≢ none)
unfolding presence_met
destinations_met_iff none ds = ground arith
destinations_met_iff (some true) none = ground arith
destinations_met_iff (some true) (some ds) = ground arith
destinations_met_iff (some false) none = ground arith
destinations_met_iff (some false) (some ds) = ground arith

kind_met_iff : (q : TransferQuery) (k : Kind) → (kind_met q k ≡ true) ↔ IsWantedKind q k
unfolding kind_met
kind_met_iff q (incoming address index) =
    &&_iff
      (&&_iff
        (&&_iff (&&_iff (is_unset_iff q.has_destinations) (text_met_iff q.address address))
          (text_listed_iff q.addresses address))
        (num_met_iff q.subaddress_index index))
      (num_listed_iff q.subaddress_indices index)
kind_met_iff q (outgoing addresses indices destinations) =
    &&_iff
      (&&_iff
        (&&_iff
          (&&_iff (text_among_iff q.address addresses) (texts_among_iff q.addresses addresses))
          (num_among_iff q.subaddress_index indices))
        (nums_among_iff q.subaddress_indices indices))
      (destinations_met_iff q.has_destinations destinations)

-- The two tests of the direction are one.
direction_iff :
    (wanted : Option Bool) (b : Bool)
    → ((flag_met wanted (some b)
          && flag_met (elim wanted [ none ↦ none | some w ↦ some (not w) ]) (some (not b)))
        ≡ true)
      ↔ Wants wanted (some b)
unfolding flag_met
direction_iff none b = ground arith
direction_iff (some true) true = ground arith
direction_iff (some true) false = ground arith
direction_iff (some false) true = ground arith
direction_iff (some false) false = ground arith

-- Every criterion on a transfer that is set holds.
abbrev pub IsWantedTransfer : TransferQuery → Transfer → Type 0
IsWantedTransfer q t =
    Wants q.is_incoming (some (is_incoming_kind t.kind))
    ⊓ Wants q.amount t.amount
    ⊓ Wants q.account_index t.account_index
    ⊓ IsWantedKind q t.kind

-- A transfer meets a query without its transaction query exactly when every criterion that is set
-- holds: the direction, the amount and the account, and the addresses and subaddresses, which for
-- an outgoing transfer must overlap with lists that are known. An incoming transfer meets no query
-- that asks about destinations.
pub meets_transfer_iff :
    (q : TransferQuery) (t : Transfer) → (meets_transfer q t ≡ true) ↔ IsWantedTransfer q t
unfolding meets_transfer
meets_transfer_iff q t =
    &&_iff
      (&&_iff
        (&&_iff (direction_iff q.is_incoming (is_incoming_kind t.kind))
          (num_met_iff q.amount t.amount))
        (num_met_iff q.account_index t.account_index))
      (kind_met_iff q t.kind)
