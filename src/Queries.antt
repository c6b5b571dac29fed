-- ===== src/Queries.antt =====
-- `meetsCriteria` of wallet/model/MoneroTxQuery.ts, MoneroTransferQuery.ts and MoneroOutputQuery.ts. A
-- query and the criteria of its transaction query refer to each other in the source. Here the
-- criteria on a transaction itself are a record of their own, which an output query may hold. The
-- chain of early returns of false is a conjunction.
pub mod Criteria
pub mod Laws
pub mod Transfers
use qwertycoin_ts.Common.{
  ℕ, Bool, true, false, not, ◌&&◌, ◌||◌, List, [], ◌∷◌, Option, none, some, ltb, leb, includes,
  Text, includes_text,
}
use qwertycoin_ts.Queries.Criteria.{
  text_met, num_met, flag_met, presence_met, truth_met, min_met, max_met, text_listed, num_listed,
  is_present,
}

-- What a query reads of a `MoneroTxWallet`; the block is undefined or has a height, which may be.
pub record TxData : Type 0 where
  pub hash : Option Text
  pub payment_id : Option Text
  pub is_confirmed : Option Bool
  pub in_tx_pool : Option Bool
  pub relay : Option Bool
  pub is_relayed : Option Bool
  pub is_failed : Option Bool
  pub is_miner_tx : Option Bool
  pub is_locked : Option Bool
  pub is_incoming : Option Bool
  pub is_outgoing : Option Bool
  pub block : Option (Option ℕ)

-- The criteria of a `MoneroTxQuery` on the transaction itself.
pub record TxCriteria : Type 0 where
  pub hash : Option Text
  pub payment_id : Option Text
  pub is_confirmed : Option Bool
  pub in_tx_pool : Option Bool
  pub relay : Option Bool
  pub is_relayed : Option Bool
  pub is_failed : Option Bool
  pub is_miner_tx : Option Bool
  pub is_locked : Option Bool
  pub has_payment_id : Option Bool
  pub is_incoming : Option Bool
  pub is_outgoing : Option Bool
  pub hashes : Option (List Text)
  pub payment_ids : Option (List Text)
  pub height : Option ℕ
  pub min_height : Option ℕ
  pub max_height : Option ℕ

abbrev pub tx_height : TxData → Option ℕ
tx_height t = elim t.block [ none ↦ none | some height ↦ height ]

-- `meetsCriteria(tx, false)` of a `MoneroTxQuery`.
unfoldable pub meets_tx_criteria : TxCriteria → TxData → Bool
meets_tx_criteria q t =
    text_met q.hash t.hash
    && text_met q.payment_id t.payment_id
    && flag_met q.is_confirmed t.is_confirmed
    && flag_met q.in_tx_pool t.in_tx_pool
    && flag_met q.relay t.relay
    && flag_met q.is_relayed t.is_relayed
    && flag_met q.is_failed t.is_failed
    && flag_met q.is_miner_tx t.is_miner_tx
    && flag_met q.is_locked t.is_locked
    && presence_met q.has_payment_id (is_present t.payment_id)
    && truth_met q.is_incoming t.is_incoming
    && truth_met q.is_outgoing t.is_outgoing
    && text_listed q.hashes t.hash
    && text_listed q.payment_ids t.payment_id
    && num_met q.height (tx_height t)
    && min_met q.min_height (tx_height t)
    && max_met q.max_height (tx_height t)

pub record KeyImageData : Type 0 where
  pub hex : Option Text
  pub signature : Option Text

-- What a query reads of a `MoneroOutputWallet`.
pub record OutputData : Type 0 where
  pub account_index : Option ℕ
  pub subaddress_index : Option ℕ
  pub amount : Option ℕ
  pub is_spent : Option Bool
  pub is_frozen : Option Bool
  pub key_image : Option KeyImageData
  pub tx : TxData

pub record OutputQuery : Type 0 where
  pub account_index : Option ℕ
  pub subaddress_index : Option ℕ
  pub amount : Option ℕ
  pub is_spent : Option Bool
  pub is_frozen : Option Bool
  pub key_image : Option KeyImageData
  pub subaddress_indices : Option (List ℕ)
  pub tx_query : Option TxCriteria
  pub min_amount : Option ℕ
  pub max_amount : Option ℕ

unfoldable pub key_image_met : Option KeyImageData → Option KeyImageData → Bool
key_image_met none k = true
key_image_met (some q) none = false
key_image_met (some q) (some k) = text_met q.hex k.hex && text_met q.signature k.signature

unfoldable pub tx_query_met : Option TxCriteria → TxData → Bool
tx_query_met none t = true
tx_query_met (some q) t = meets_tx_criteria q t

-- An amount that must be known if it has a lower bound.
unfoldable pub min_amount_met : Option ℕ → Option ℕ → Bool
min_amount_met none a = true
min_amount_met (some lo) none = false
min_amount_met (some lo) (some a) = not (ltb a lo)

-- `meetsCriteria` of a `MoneroOutputQuery`; it ignores `queryParent`.
unfoldable pub meets_output : OutputQuery → OutputData → Bool
meets_output q o =
    num_met q.account_index o.account_index
    && num_met q.subaddress_index o.subaddress_index
    && num_met q.amount o.amount
    && flag_met q.is_spent o.is_spent
    && flag_met q.is_frozen o.is_frozen
    && key_image_met q.key_image o.key_image
    && num_listed q.subaddress_indices o.subaddress_index
    && tx_query_met q.tx_query o.tx
    && min_amount_met q.min_amount o.amount
    && max_met q.max_amount o.amount
