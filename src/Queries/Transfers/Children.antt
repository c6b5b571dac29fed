-- ===== src/Queries/Transfers/Children.antt =====
-- What a `MoneroTxQuery` accepts with the queries of its children, and a `MoneroTransferQuery` with
-- its transaction query (MoneroTxQuery.ts, MoneroTransferQuery.ts).
use qwertycoin_ts.Common.{◌≡◌, ◌↔◌, ◌⊎◌, true, List, [], ◌∷◌, Option, none, some, arith}
use qwertycoin_ts.Queries.Criteria.{◌⊓◌, &&_iff, ||_iff}
use qwertycoin_ts.Queries.{OutputData, OutputQuery}
use qwertycoin_ts.Queries.Laws.{IsWantedTx, meets_tx_criteria_iff, IsWantedOutput, meets_output_iff}
use qwertycoin_ts.Queries.Transfers.{
  Transfer, TransferQuery, Tx, TxQuery, any_transfer, any_output, outgoing_matches, incoming_match,
  transfers_met, outputs_met, meets_tx, meets_transfer_and_parent,
}
use qwertycoin_ts.Queries.Transfers.Laws.{IsWantedTransfer, meets_transfer_iff}

-- Some element of a list satisfies a predicate.
abbrev pub Any : {A : Type 0} → (A → Type 0) → List A → Type 0
Any P [] = ⊥
Any P (x ∷ xs) = P x ⊎ Any P xs

abbrev pub AnyOf : {A : Type 0} → (A → Type 0) → Option (List A) → Type 0
AnyOf P none = ⊥
AnyOf P (some xs) = Any P xs

any_transfer_iff :
    (q : TransferQuery) (ts : List Transfer)
    → (any_transfer q ts ≡ true) ↔ Any (IsWantedTransfer q) ts
unfolding any_transfer
any_transfer_iff q [] = ground arith
any_transfer_iff q (t ∷ ts) = ||_iff (meets_transfer_iff q t) (any_transfer_iff q ts)

any_output_iff :
    (q : OutputQuery) (os : List OutputData) → (any_output q os ≡ true) ↔ Any (IsWantedOutput q) os
unfolding any_output
any_output_iff q [] = ground arith
any_output_iff q (o ∷ os) = ||_iff (meets_output_iff q o) (any_output_iff q os)

abbrev pub IsWantedOutgoing : TransferQuery → Option Transfer → Type 0
IsWantedOutgoing q none = ⊥
IsWantedOutgoing q (some t) = IsWantedTransfer q t

outgoing_matches_iff :
    (q : TransferQuery) (t : Option Transfer) → (outgoing_matches q t ≡ true) ↔ IsWantedOutgoing q t
unfolding outgoing_matches
outgoing_matches_iff q none = ground arith
outgoing_matches_iff q (some t) = meets_transfer_iff q t

incoming_match_iff :
    (q : TransferQuery) (ts : Option (List Transfer))
    → (incoming_match q ts ≡ true) ↔ AnyOf (IsWantedTransfer q) ts
unfolding incoming_match
incoming_match_iff q none = ground arith
incoming_match_iff q (some ts) = any_transfer_iff q ts

abbrev pub HasWantedTransfer : Option TransferQuery → Tx → Type 0
HasWantedTransfer none t = Unit
HasWantedTransfer (some q) t =
    IsWantedOutgoing q t.outgoing_transfer ⊎ AnyOf (IsWantedTransfer q) t.incoming_transfers

transfers_met_iff :
    (q : Option TransferQuery) (t : Tx) → (transfers_met q t ≡ true) ↔ HasWantedTransfer q t
unfolding transfers_met
transfers_met_iff none t = ground arith
transfers_met_iff (some q) t =
    ||_iff (outgoing_matches_iff q t.outgoing_transfer) (incoming_match_iff q t.incoming_transfers)

abbrev pub HasWantedOutput : Option OutputQuery → Option (List OutputData) → Type 0
HasWantedOutput none os = Unit
HasWantedOutput (some q) os = AnyOf (IsWantedOutput q) os

outputs_met_iff :
    (q : Option OutputQuery) (os : Option (List OutputData))
    → (outputs_met q os ≡ true) ↔ HasWantedOutput q os
unfolding outputs_met
outputs_met_iff none os = ground arith
outputs_met_iff (some q) none = ground arith
outputs_met_iff (some q) (some os) = any_output_iff q os

abbrev pub IsWanted : TxQuery → Tx → Type 0
IsWanted q t =
    IsWantedTx q.criteria t.fields
    ⊓ HasWantedTransfer q.transfer_query t
    ⊓ HasWantedOutput q.input_query t.inputs
    ⊓ HasWantedOutput q.output_query t.outputs

-- A transaction meets a query exactly when every criterion on the transaction that is set holds,
-- and for each child query that is set one of its transfers, inputs or outputs satisfies it.
pub meets_tx_iff : (q : TxQuery) (t : Tx) → (meets_tx q t ≡ true) ↔ IsWanted q t
unfolding meets_tx
meets_tx_iff q t =
    &&_iff
      (&&_iff
        (&&_iff (meets_tx_criteria_iff q.criteria t.fields) (transfers_met_iff q.transfer_query t))
        (outputs_met_iff q.input_query t.inputs))
      (outputs_met_iff q.output_query t.outputs)

abbrev pub HasWantedParent : Option TxQuery → Tx → Type 0
HasWantedParent none tx = Unit
HasWantedParent (some q) tx = IsWanted q tx

-- A transfer meets a query with a transaction query exactly when its own criteria hold and its
-- transaction satisfies the transaction query, the children of that one included.
pub meets_transfer_and_parent_iff :
    (q : TransferQuery) (parent : Option TxQuery) (t : Transfer) (tx : Tx)
    → (meets_transfer_and_parent q parent t tx ≡ true)
      ↔ (IsWantedTransfer q t × HasWantedParent parent tx)
unfolding meets_transfer_and_parent
meets_transfer_and_parent_iff q none t tx = ground (arith, meets_transfer_iff q t)
meets_transfer_and_parent_iff q (some parent) t tx =
    &&_iff (meets_transfer_iff q t) (meets_tx_iff parent tx)
