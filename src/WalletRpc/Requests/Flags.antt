-- ===== src/WalletRpc/Requests/Flags.antt =====
-- The tests of `getTransfersAux` on the flags and on the direction that a query names.
use qwertycoin_ts.Common.{
  ℕ, ◌≡◌, inl, inr, refl, subst, ◌∙◌, Bool, true, false, not, Option, none, some,
}
use qwertycoin_ts.Queries.Criteria.{Wants, IsAtMost}
use qwertycoin_ts.Queries.{TxData, TxCriteria, tx_height}
use qwertycoin_ts.Queries.Transfers.{
  Kind, incoming, outgoing, Transfer, TransferQuery, is_incoming_kind,
}
use qwertycoin_ts.Queries.Laws.{IsWantedTx}
use qwertycoin_ts.Queries.Transfers.Laws.{IsWantedKind, IsWantedTransfer}
use qwertycoin_ts.WalletRpc.Requests.{
  differs, is_missing, can_be_confirmed, can_be_in_tx_pool, can_be_incoming, can_be_outgoing,
  can_be_failed,
}

Wants-differs : {q v : Option Bool} (b : Bool) → Wants q v → v ≡ some b → differs q (not b) ≡ true
Wants-differs {q} b wanted v = elim wanted [
  | inl free ↦ rw free refl
  | inr same ↦ rw (same ∙ v) (own b)
]
  where
    own : (b : Bool) → differs (some b) (not b) ≡ true
    own true = refl
    own false = refl

Wants-missing : {q v : Option ℕ} → Wants q v → v ≡ none → is_missing q ≡ true
Wants-missing wanted v = elim wanted [ inl free ↦ rw free refl | inr same ↦ rw (same ∙ v) refl ]

IsAtMost-missing : (q v : Option ℕ) → IsAtMost q v → v ≡ none → is_missing q ≡ true
IsAtMost-missing none w h v = refl
IsAtMost-missing (some hi) w h v = absurd (subst (IsAtMost (some hi)) v h)

-- A transaction with these flags that meets the query may be fetched as confirmed, as failed, or
-- from the pool.
module _ (q : TxCriteria) (t : TxData) (h : IsWantedTx q t) where
  pub confirmed-can_be :
      t.is_confirmed ≡ some true
      → t.in_tx_pool ≡ some false
      → t.is_relayed ≡ some true
      → t.is_failed ≡ some false
      → can_be_confirmed q ≡ true
  unfolding can_be_confirmed
  confirmed-can_be c p r f =
      rw
        (
          Wants-differs true h.0.0.0.0.0.0.0.0.0.0.0.0.0.0.1 c,
          Wants-differs false h.0.0.0.0.0.0.0.0.0.0.0.0.0.1 p,
          Wants-differs false h.0.0.0.0.0.0.0.0.0.0.1 f,
          Wants-differs true h.0.0.0.0.0.0.0.0.0.0.0.1 r,
        )
        refl

  pub failed-can_be :
      t.is_confirmed ≡ some false
      → t.in_tx_pool ≡ some false
      → t.is_failed ≡ some true
      → can_be_failed q ≡ true
  unfolding can_be_failed
  failed-can_be c p f =
      rw
        (
          Wants-differs true h.0.0.0.0.0.0.0.0.0.0.1 f,
          Wants-differs false h.0.0.0.0.0.0.0.0.0.0.0.0.0.0.1 c,
          Wants-differs false h.0.0.0.0.0.0.0.0.0.0.0.0.0.1 p,
        )
        refl

  pub pool-can_be :
      t.is_confirmed ≡ some false
      → t.in_tx_pool ≡ some true
      → t.is_failed ≡ some false
      → tx_height t ≡ none
      → t.is_locked ≡ some true
      → can_be_in_tx_pool q ≡ true
  unfolding can_be_in_tx_pool
  pool-can_be c p f height locked =
      rw
        (
          Wants-differs false h.0.0.0.0.0.0.0.0.0.0.0.0.0.0.1 c,
          Wants-differs true h.0.0.0.0.0.0.0.0.0.0.0.0.0.1 p,
          Wants-differs false h.0.0.0.0.0.0.0.0.0.0.1 f,
          Wants-differs true h.0.0.0.0.0.0.0.0.1 locked,
          Wants-missing h.0.0.1 height,
          IsAtMost-missing q.max_height (tx_height t) h.1 height,
        )
        refl

-- An incoming transfer that meets the query may be fetched as incoming, an outgoing one as outgoing.
incoming-can_be :
    (q : TransferQuery)
    → Wants q.is_incoming (some true)
    → q.has_destinations ≡ none
    → can_be_incoming q ≡ true
unfolding can_be_incoming
incoming-can_be q wanted free = elim wanted [
  | inl none_wanted ↦ rw (none_wanted, free) refl
  | inr same ↦ rw (same, free) refl
]

outgoing-can_be : (q : TransferQuery) → Wants q.is_incoming (some false) → can_be_outgoing q ≡ true
unfolding can_be_outgoing
outgoing-can_be q wanted = elim wanted [
  | inl none_wanted ↦ rw none_wanted refl
  | inr same ↦ rw same refl
]

pub kind-can_be_incoming :
    (q : TransferQuery) (transfer : Transfer)
    → is_incoming_kind transfer.kind ≡ true
    → IsWantedTransfer q transfer
    → can_be_incoming q ≡ true
kind-can_be_incoming q transfer d h =
    incoming-can_be q (subst (λ b. Wants q.is_incoming (some b)) d h.0.0.0)
      (no_destinations transfer.kind d h.1)
  where
    no_destinations :
        (k : Kind) → is_incoming_kind k ≡ true → IsWantedKind q k → q.has_destinations ≡ none
    no_destinations (incoming a i) d h = h.0.0.0.0
    no_destinations (outgoing a i ds) d h = absurd (cc)

pub kind-can_be_outgoing :
    (q : TransferQuery) (transfer : Transfer)
    → is_incoming_kind transfer.kind ≡ false
    → IsWantedTransfer q transfer
    → can_be_outgoing q ≡ true
kind-can_be_outgoing q transfer d h =
    outgoing-can_be q (subst (λ b. Wants q.is_incoming (some b)) d h.0.0.0)
