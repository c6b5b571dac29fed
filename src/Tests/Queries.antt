-- ===== src/Tests/Queries.antt =====
-- The queries at concrete inputs (MoneroTxQuery.ts, MoneroTransferQuery.ts, MoneroOutputQuery.ts).
use qwertycoin_ts.Common.{◌≡◌, ◌↔◌, true, false, [], ◌∷◌, none, some, codes}
use qwertycoin_ts.Common.{text_eq, refl, includes_text}
use qwertycoin_ts.Queries.Criteria.{
  text_met, flag_met, presence_met, truth_met, text_listed, num_listed, num_met, min_met, max_met,
}
use qwertycoin_ts.Queries.Transfers.{kind_met}
use qwertycoin_ts.Common.Result.{ok, err}
use qwertycoin_ts.WalletRpc.Requests.{
  Params, contradicts_configuration, decode_rpc_type, with_flags, get_transfers_params,
}
use qwertycoin_ts.WalletRpc.Requests.Covers.{
  IsFetched, in_chain, name, get_transfers_params-IsFetched,
}
use qwertycoin_ts.WalletRpc.Requests.Refused.{get_transfers_params-refused_unmet}
use qwertycoin_ts.Queries.{meets_tx_criteria, TxData, TxCriteria, OutputData, OutputQuery}
use qwertycoin_ts.Queries.Transfers.{
  incoming, Transfer, TransferQuery, meets_transfer, Tx, TxQuery, meets_tx,
}
use qwertycoin_ts.Queries.Transfers.Children.{IsWanted, meets_tx_iff}

abbrev confirmed : TxData
confirmed = record {
  hash = some (codes "ab");
  payment_id = none;
  is_confirmed = some true;
  in_tx_pool = some false;
  relay = none;
  is_relayed = some true;
  is_failed = some false;
  is_miner_tx = some false;
  is_locked = some false;
  is_incoming = some true;
  is_outgoing = none;
  block = some (some 120);
}

-- Confirmed transactions from height 100 on, without a payment id.
abbrev recent : TxCriteria
recent = record {
  hash = none;
  payment_id = none;
  is_confirmed = some true;
  in_tx_pool = none;
  relay = none;
  is_relayed = none;
  is_failed = none;
  is_miner_tx = none;
  is_locked = none;
  has_payment_id = some false;
  is_incoming = none;
  is_outgoing = some false;
  hashes = some (codes "ab" ∷ []);
  payment_ids = none;
  height = none;
  min_height = some 100;
  max_height = none;
}

abbrev unspent : OutputData
unspent = record {
  account_index = some 0;
  subaddress_index = some 1;
  amount = some 500;
  is_spent = some false;
  is_frozen = some false;
  key_image = none;
  tx = confirmed;
}

abbrev spendable : OutputQuery
spendable = record {
  account_index = some 0;
  subaddress_index = none;
  amount = none;
  is_spent = some false;
  is_frozen = none;
  key_image = none;
  subaddress_indices = some (1 ∷ 2 ∷ []);
  tx_query = some recent;
  min_amount = some 100;
  max_amount = none;
}

abbrev receipt : Transfer
receipt = record {
  amount = some 500;
  account_index = some 0;
  kind = incoming (some (codes "addr")) (some 1);
}

abbrev receipts : TransferQuery
receipts = record {
  is_incoming = some true;
  amount = none;
  account_index = some 0;
  address = none;
  addresses = some (codes "addr" ∷ []);
  subaddress_index = none;
  subaddress_indices = none;
  has_destinations = none;
}

abbrev received : Tx
received = record {
  fields = confirmed;
  outgoing_transfer = none;
  incoming_transfers = some (receipt ∷ []);
  inputs = none;
  outputs = some (unspent ∷ []);
}

abbrev recent_receipts : TxQuery
recent_receipts = record {
  criteria = recent;
  transfer_query = some receipts;
  input_query = none;
  output_query = some spendable;
}

meets_tx_iff_example :
    (meets_tx recent_receipts received ≡ true) ↔ IsWanted recent_receipts received
meets_tx_iff_example = meets_tx_iff recent_receipts received

-- Transfers that came in on subaddress 1 of the first account since height 100.
abbrev to_subaddress : TransferQuery
to_subaddress = record {
  is_incoming = some true;
  amount = none;
  account_index = some 0;
  address = none;
  addresses = none;
  subaddress_index = some 1;
  subaddress_indices = none;
  has_destinations = none;
}

abbrev mined_flags : TxData
mined_flags = record confirmed { relay = some true }

abbrev request : Params
request = record {
  fetch_in = true;
  fetch_out = false;
  fetch_pool = false;
  fetch_pending = false;
  fetch_failed = false;
  min_height = some 99;
  max_height = none;
  filter_by_height = true;
  all_accounts = none;
  account_index = some 0;
  subaddr_indices = some (1 ∷ []);
}

confirmed_decoded : decode_rpc_type (name in_chain) confirmed ≡ ok (false, mined_flags)
unfolding decode_rpc_type text_eq with_flags
confirmed_decoded = refl

confirmed_met : meets_tx_criteria recent mined_flags ≡ true
unfolding meets_tx_criteria text_met flag_met presence_met truth_met text_listed includes_text
    text_eq num_met min_met max_met
confirmed_met = refl

receipt_met : meets_transfer to_subaddress receipt ≡ true
unfolding meets_transfer kind_met text_met flag_met num_met text_listed num_listed
receipt_met = refl

request_sent : get_transfers_params to_subaddress recent ≡ ok request
unfolding get_transfers_params
request_sent = refl

get_transfers_params-IsFetched_example : IsFetched request in_chain (some 120) receipt
get_transfers_params-IsFetched_example =
    get_transfers_params-IsFetched to_subaddress recent in_chain confirmed mined_flags receipt false
      request confirmed_decoded refl tt (λ e. absurd (cc)) confirmed_met receipt_met request_sent

-- A query for the pool and for confirmed transactions at once.
abbrev impossible : TxCriteria
impossible = record recent { in_tx_pool = some true }

impossible_refused : get_transfers_params to_subaddress impossible ≡ err contradicts_configuration
unfolding get_transfers_params
impossible_refused = refl

get_transfers_params-refused_unmet_example : meets_tx_criteria impossible mined_flags ≡ false
get_transfers_params-refused_unmet_example =
    get_transfers_params-refused_unmet to_subaddress impossible in_chain confirmed mined_flags false
      impossible_refused confirmed_decoded tt
