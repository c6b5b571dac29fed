-- ===== src/Queries/Transfers.antt =====
-- `meetsCriteria` of wallet/model/MoneroTransferQuery.ts, and that of MoneroTxQuery.ts with the
-- queries of its children.
pub mod Laws
pub mod Children
use qwertycoin_ts.Common.{
  ℕ, Bool, true, false, not, ◌&&◌, ◌||◌, List, [], ◌∷◌, Option, none, some, includes, Text,
  includes_text,
}
use qwertycoin_ts.Queries.Criteria.{
  text_met, num_met, flag_met, presence_met, text_listed, num_listed,
}
use qwertycoin_ts.Queries.{
  TxData, TxCriteria, meets_tx_criteria, OutputData, OutputQuery, meets_output,
}

pub record Destination : Type 0 where
  pub address : Text
  pub amount : ℕ

-- A `MoneroIncomingTransfer` or a `MoneroOutgoingTransfer`.
pub data Kind : Type 0 where
  incoming : (address : Option Text) → (subaddress_index : Option ℕ) → Kind
  outgoing :
      (addresses : Option (List Text))
      → (subaddress_indices : Option (List ℕ)) → (destinations : Option (List Destination)) → Kind

pub record Transfer : Type 0 where
  pub amount : Option ℕ
  pub account_index : Option ℕ
  pub kind : Kind

-- A `MoneroTransferQuery` but for its transaction query. The direction is kept in `isIncoming`
-- alone; `getIsOutgoing` negates it.
pub record TransferQuery : Type 0 where
  pub is_incoming : Option Bool
  pub amount : Option ℕ
  pub account_index : Option ℕ
  pub address : Option Text
  pub addresses : Option (List Text)
  pub subaddress_index : Option ℕ
  pub subaddress_indices : Option (List ℕ)
  pub has_destinations : Option Bool

abbrev pub is_incoming_kind : Kind → Bool
is_incoming_kind (incoming a i) = true
is_incoming_kind (outgoing a i d) = false

abbrev pub get_is_outgoing : TransferQuery → Option Bool
get_is_outgoing q = elim q.is_incoming [ none ↦ none | some b ↦ some (not b) ]

-- The value that the query names must be in a list that is known.
unfoldable pub text_among : Option Text → Option (List Text) → Bool
text_among none known = true
text_among (some a) none = false
text_among (some a) (some known) = includes_text known a

unfoldable pub num_among : Option ℕ → Option (List ℕ) → Bool
num_among none known = true
num_among (some n) none = false
num_among (some n) (some known) = includes known n

-- `some(a => known.includes(a))`
unfoldable pub overlap_text : List Text → List Text → Bool
overlap_text [] known = false
overlap_text (a ∷ as') known = includes_text known a || overlap_text as' known

unfoldable pub overlap_num : List ℕ → List ℕ → Bool
overlap_num [] known = false
overlap_num (n ∷ ns) known = includes known n || overlap_num ns known

-- One of the values that the query names must be in a list that is known.
unfoldable pub texts_among : Option (List Text) → Option (List Text) → Bool
texts_among none known = true
texts_among (some as') none = false
texts_among (some as') (some known) = overlap_text as' known

unfoldable pub nums_among : Option (List ℕ) → Option (List ℕ) → Bool
nums_among none known = true
nums_among (some ns) none = false
nums_among (some ns) (some known) = overlap_num ns known

abbrev pub is_unset : Option Bool → Bool
is_unset none = true
is_unset (some b) = false

abbrev pub is_known : Option (List Destination) → Bool
is_known none = false
is_known (some ds) = true

-- The criteria on one kind of transfer.
unfoldable pub kind_met : TransferQuery → Kind → Bool
kind_met q (incoming address index) =
    is_unset q.has_destinations
    && text_met q.address address
    && text_listed q.addresses address
    && num_met q.subaddress_index index
    && num_listed q.subaddress_indices index
kind_met q (outgoing addresses indices destinations) =
    text_among q.address addresses
    && texts_among q.addresses addresses
    && num_among q.subaddress_index indices
    && nums_among q.subaddress_indices indices
    && presence_met q.has_destinations (is_known destinations)

-- `meetsCriteria(transfer, false)` of a `MoneroTransferQuery`.
unfoldable pub meets_transfer : TransferQuery → Transfer → Bool
unfolding kind_met
meets_transfer q t =
    flag_met q.is_incoming (some (is_incoming_kind t.kind))
    && flag_met (get_is_outgoing q) (some (not (is_incoming_kind t.kind)))
    && num_met q.amount t.amount
    && num_met q.account_index t.account_index
    && kind_met q t.kind

-- A `MoneroTxWallet` with its children, and a `MoneroTxQuery` with its queries.
pub record Tx : Type 0 where
  pub fields : TxData
  pub outgoing_transfer : Option Transfer
  pub incoming_transfers : Option (List Transfer)
  pub inputs : Option (List OutputData)
  pub outputs : Option (List OutputData)

pub record TxQuery : Type 0 where
  pub criteria : TxCriteria
  pub transfer_query : Option TransferQuery
  pub input_query : Option OutputQuery
  pub output_query : Option OutputQuery

unfoldable pub any_transfer : TransferQuery → List Transfer → Bool
any_transfer q [] = false
any_transfer q (t ∷ ts) = meets_transfer q t || any_transfer q ts

unfoldable pub any_output : OutputQuery → List OutputData → Bool
any_output q [] = false
any_output q (o ∷ os) = meets_output q o || any_output q os

unfoldable pub outgoing_matches : TransferQuery → Option Transfer → Bool
outgoing_matches q none = false
outgoing_matches q (some t) = meets_transfer q t

unfoldable pub incoming_match : TransferQuery → Option (List Transfer) → Bool
unfolding any_transfer
incoming_match q none = false
incoming_match q (some ts) = any_transfer q ts

unfoldable pub transfers_met : Option TransferQuery → Tx → Bool
unfolding outgoing_matches incoming_match
transfers_met none t = true
transfers_met (some q) t =
    outgoing_matches q t.outgoing_transfer || incoming_match q t.incoming_transfers

unfoldable pub outputs_met : Option OutputQuery → Option (List OutputData) → Bool
unfolding any_output
outputs_met none os = true
outputs_met (some q) none = false
outputs_met (some q) (some os) = any_output q os

-- `meetsCriteria(tx)` of a `MoneroTxQuery`.
unfoldable pub meets_tx : TxQuery → Tx → Bool
unfolding transfers_met outputs_met
meets_tx q t =
    meets_tx_criteria q.criteria t.fields
    && transfers_met q.transfer_query t
    && outputs_met q.input_query t.inputs
    && outputs_met q.output_query t.outputs

-- `meetsCriteria(transfer)` of a `MoneroTransferQuery` with a transaction query.
unfoldable pub meets_transfer_and_parent : TransferQuery → Option TxQuery → Transfer → Tx → Bool
unfolding meets_transfer meets_tx
meets_transfer_and_parent q none transfer tx = meets_transfer q transfer
meets_transfer_and_parent q (some parent) transfer tx =
    meets_transfer q transfer && meets_tx parent tx
