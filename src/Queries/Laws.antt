-- ===== src/Queries/Laws.antt =====
-- What the queries of MoneroTxQuery.ts and MoneroOutputQuery.ts accept.
use qwertycoin_ts.Common.{ℕ, ◌≡◌, ◌≢◌, ◌↔◌, true, Option, none, some, arith}
use qwertycoin_ts.Queries.Criteria.{
  Wants, WantsTruth, IsAtMost, IsAtLeast, IsKnownAtLeast, IsListed, ◌⊓◌, &&_iff, text_met_iff,
  num_met_iff, flag_met_iff, presence_met_iff, truth_met_iff, min_met_iff, max_met_iff,
  text_listed_iff, num_listed_iff,
}
use qwertycoin_ts.Queries.{
  TxData, TxCriteria, tx_height, meets_tx_criteria, KeyImageData, OutputData, OutputQuery,
  key_image_met, tx_query_met, min_amount_met, meets_output,
}

-- Every criterion on a transaction that is set holds.
abbrev pub IsWantedTx : TxCriteria → TxData → Type 0
IsWantedTx q t =
    Wants q.hash t.hash
    ⊓ Wants q.payment_id t.payment_id
    ⊓ Wants q.is_confirmed t.is_confirmed
    ⊓ Wants q.in_tx_pool t.in_tx_pool
    ⊓ Wants q.relay t.relay
    ⊓ Wants q.is_relayed t.is_relayed
    ⊓ Wants q.is_failed t.is_failed
    ⊓ Wants q.is_miner_tx t.is_miner_tx
    ⊓ Wants q.is_locked t.is_locked
    ⊓ WantsTruth q.has_payment_id (t.payment_id ≢ none)
    ⊓ WantsTruth q.is_incoming (t.is_incoming ≡ some true)
    ⊓ WantsTruth q.is_outgoing (t.is_outgoing ≡ some true)
    ⊓ IsListed q.hashes t.hash
    ⊓ IsListed q.payment_ids t.payment_id
    ⊓ Wants q.height (tx_height t)
    ⊓ IsAtLeast q.min_height (tx_height t)
    ⊓ IsAtMost q.max_height (tx_height t)

-- A transaction meets a query without its children exactly when every criterion that is set holds:
-- equal fields, a payment id that is there or not, directions, listed hashes and payment ids, and
-- bounds on the height, where an unconfirmed transaction passes the lower one only.
pub meets_tx_criteria_iff :
    (q : TxCriteria) (t : TxData) → (meets_tx_criteria q t ≡ true) ↔ IsWantedTx q t
unfolding meets_tx_criteria
meets_tx_criteria_iff q t =
    let flags =
      &&_iff
        (&&_iff
          (&&_iff
            (&&_iff
              (&&_iff
                (&&_iff
                  (&&_iff
                    (&&_iff (text_met_iff q.hash t.hash) (text_met_iff q.payment_id t.payment_id))
                    (flag_met_iff q.is_confirmed t.is_confirmed))
                  (flag_met_iff q.in_tx_pool t.in_tx_pool))
                (flag_met_iff q.relay t.relay))
              (flag_met_iff q.is_relayed t.is_relayed))
            (flag_met_iff q.is_failed t.is_failed))
          (flag_met_iff q.is_miner_tx t.is_miner_tx))
        (flag_met_iff q.is_locked t.is_locked) in
    &&_iff
      (&&_iff
        (&&_iff
          (&&_iff
            (&&_iff
              (&&_iff
                (&&_iff (&&_iff flags (presence_met_iff q.has_payment_id t.payment_id))
                  (truth_met_iff q.is_incoming t.is_incoming))
                (truth_met_iff q.is_outgoing t.is_outgoing))
              (text_listed_iff q.hashes t.hash))
            (text_listed_iff q.payment_ids t.payment_id))
          (num_met_iff q.height (tx_height t)))
        (min_met_iff q.min_height (tx_height t)))
      (max_met_iff q.max_height (tx_height t))

abbrev pub IsWantedKeyImage : Option KeyImageData → Option KeyImageData → Type 0
IsWantedKeyImage none k = Unit
IsWantedKeyImage (some q) none = ⊥
IsWantedKeyImage (some q) (some k) = Wants q.hex k.hex ⊓ Wants q.signature k.signature

key_image_met_iff : (q k : Option KeyImageData) → (key_image_met q k ≡ true) ↔ IsWantedKeyImage q k
unfolding key_image_met
key_image_met_iff none k = ground arith
key_image_met_iff (some q) none = ground arith
key_image_met_iff (some q) (some k) =
    &&_iff (text_met_iff q.hex k.hex) (text_met_iff q.signature k.signature)

abbrev pub HasWantedTx : Option TxCriteria → TxData → Type 0
HasWantedTx none t = Unit
HasWantedTx (some q) t = IsWantedTx q t

tx_query_met_iff :
    (q : Option TxCriteria) (t : TxData) → (tx_query_met q t ≡ true) ↔ HasWantedTx q t
unfolding tx_query_met
tx_query_met_iff none t = ground arith
tx_query_met_iff (some q) t = meets_tx_criteria_iff q t

min_amount_met_iff : (q a : Option ℕ) → (min_amount_met q a ≡ true) ↔ IsKnownAtLeast q a
unfolding min_amount_met
min_amount_met_iff none a = ground arith
min_amount_met_iff (some lo) none = ground arith
min_amount_met_iff (some lo) (some a) = ground arith

-- Every criterion on an output that is set holds.
abbrev pub IsWantedOutput : OutputQuery → OutputData → Type 0
IsWantedOutput q o =
    Wants q.account_index o.account_index
    ⊓ Wants q.subaddress_index o.subaddress_index
    ⊓ Wants q.amount o.amount
    ⊓ Wants q.is_spent o.is_spent
    ⊓ Wants q.is_frozen o.is_frozen
    ⊓ IsWantedKeyImage q.key_image o.key_image
    ⊓ IsListed q.subaddress_indices o.subaddress_index
    ⊓ HasWantedTx q.tx_query o.tx
    ⊓ IsKnownAtLeast q.min_amount o.amount
    ⊓ IsAtMost q.max_amount o.amount

-- An output meets a query exactly when every criterion that is set holds, those on its transaction
-- itself included; an amount that is bounded on either side must be known.
pub meets_output_iff :
    (q : OutputQuery) (o : OutputData) → (meets_output q o ≡ true) ↔ IsWantedOutput q o
unfolding meets_output
meets_output_iff q o =
    &&_iff
      (&&_iff
        (&&_iff
          (&&_iff
            (&&_iff
              (&&_iff
                (&&_iff
                  (&&_iff
                    (&&_iff (num_met_iff q.account_index o.account_index)
                      (num_met_iff q.subaddress_index o.subaddress_index))
                    (num_met_iff q.amount o.amount))
                  (flag_met_iff q.is_spent o.is_spent))
                (flag_met_iff q.is_frozen o.is_frozen))
              (key_image_met_iff q.key_image o.key_image))
            (num_listed_iff q.subaddress_indices o.subaddress_index))
          (tx_query_met_iff q.tx_query o.tx))
        (min_amount_met_iff q.min_amount o.amount))
      (max_met_iff q.max_amount o.amount)
