-- ===== src/Merge/Rules.antt =====
-- What `merge` of MoneroTx.ts makes of each field of a transaction, described by a table of rules.
use qwertycoin_ts.Common.{◌≡◌, ◌⊎◌, inl, inr, Bool, true, false, List, [], ◌∷◌, max, min, All}
use qwertycoin_ts.Common.Result.{ok}
use qwertycoin_ts.GenUtils.Reconcile
use qwertycoin_ts.GenUtils.Reconcile.{Value, Config, no_config, take_true, take_max, reconcile}
use qwertycoin_ts.GenUtils.Reconcile.Described.{
  IsAgreed, IsEither, IsPicked, IsAgreed-reconciled, IsEither-reconciled, greatest-IsPicked,
  least-IsPicked,
}
use qwertycoin_ts.Merge
use qwertycoin_ts.Merge.{
  Field, Fields, version, payment_id, fee, ring_size, is_confirmed, is_miner_tx, relay, is_relayed,
  is_double_spend_seen, key, full_hex, pruned_hex, prunable_hex, prunable_hash, size, weight,
  output_indices, metadata, extra, rct_signatures, rct_sig_prunable, is_kept_by_block, is_failed,
  last_failed_height, last_failed_hash, max_used_block_height, max_used_block_hash, signatures,
  unlock_time, num_confirmations, in_tx_pool, received_timestamp, last_relayed_timestamp, is_true,
  merge_tx_fields,
}
use qwertycoin_ts.Merge.Fields.{merge_tx_fields_lem}

-- The two values must agree, or either flag is taken, or the greatest or the least number.
pub data Rule : Type 0 where
  agreed either greatest least : Rule

abbrev pub Obeys : Rule → (Value → Value → Bool) → Value → Value → Value → Type 0
Obeys agreed = IsAgreed
Obeys either = IsEither
Obeys greatest = IsPicked max
Obeys least = IsPicked min

abbrev pub rules : List (Field × Rule)
rules =
    (Merge.hash, agreed)
    ∷ (version, agreed)
    ∷ (payment_id, agreed)
    ∷ (fee, agreed)
    ∷ (ring_size, agreed)
    ∷ (is_confirmed, either)
    ∷ (is_miner_tx, agreed)
    ∷ (relay, either)
    ∷ (is_relayed, either)
    ∷ (is_double_spend_seen, either)
    ∷ (key, agreed)
    ∷ (full_hex, agreed)
    ∷ (pruned_hex, agreed)
    ∷ (prunable_hex, agreed)
    ∷ (prunable_hash, agreed)
    ∷ (size, agreed)
    ∷ (weight, agreed)
    ∷ (output_indices, agreed)
    ∷ (metadata, agreed)
    ∷ (extra, agreed)
    ∷ (rct_signatures, agreed)
    ∷ (rct_sig_prunable, agreed)
    ∷ (is_kept_by_block, agreed)
    ∷ (is_failed, either)
    ∷ (last_failed_height, agreed)
    ∷ (last_failed_hash, agreed)
    ∷ (max_used_block_height, agreed)
    ∷ (max_used_block_hash, agreed)
    ∷ (signatures, agreed)
    ∷ (unlock_time, agreed)
    ∷ (num_confirmations, greatest)
    ∷ []

-- Of a transaction that is not confirmed.
abbrev pub pool_rules : List (Field × Rule)
pool_rules =
    (in_tx_pool, either) ∷ (received_timestamp, least) ∷ (last_relayed_timestamp, greatest) ∷ []

module _ (deep_equal : Value → Value → Bool) (a b r : Fields) where
  abbrev pub Follow : List (Field × Rule) → Type 0
  Follow table = All (λ s. Obeys s.1 deep_equal (a s.0) (b s.0) (r s.0)) table

  -- A transaction that is confirmed is not in the pool and has no times.
  abbrev pub IsPlaced : Type 0
  IsPlaced =
      ((is_true (r is_confirmed) ≡ true)
        × (r in_tx_pool ≡ Reconcile.boolean false)
        × (r received_timestamp ≡ Reconcile.undefined)
        × (r last_relayed_timestamp ≡ Reconcile.undefined))
      ⊎ ((is_true (r is_confirmed) ≡ false) × Follow pool_rules)

  abbrev config_for : Rule → Config
  config_for agreed = no_config
  config_for either = take_true
  config_for greatest = take_max true
  config_for least = take_max false

  Obeys-reconciled :
      (rule : Rule) (x y : Value) {z : Value}
      → reconcile deep_equal (config_for rule) x y ≡ ok z
      → Obeys rule deep_equal x y z
  Obeys-reconciled agreed x y h = IsAgreed-reconciled deep_equal x y h
  Obeys-reconciled either x y h = IsEither-reconciled deep_equal x y h
  Obeys-reconciled greatest x y h = greatest-IsPicked deep_equal x y h
  Obeys-reconciled least x y h = least-IsPicked deep_equal x y h

  reconciled-Follow :
      (table : List (Field × Rule))
      → All (λ s. reconcile deep_equal (config_for s.1) (a s.0) (b s.0) ≡ ok (r s.0)) table
      → Follow table
  reconciled-Follow [] h = tt
  reconciled-Follow (s ∷ table) h =
      (Obeys-reconciled s.1 (a s.0) (b s.0) h.0, reconciled-Follow table h.1)

-- What a merge that returns has made of the fields but for inputs, outputs and the block. Flags that
-- tell whether the transaction is confirmed, to be relayed, relayed, a double spend or failed are
-- set if either is, and the number of confirmations is the greatest. Every other field, as the fee
-- and the hash, is the one that is defined, or the first of two that are the same or deeply equal. A
-- merged transaction that is confirmed is out of the pool and has no times of reception and relay.
-- One that is not is in the pool if either is, was received at the earliest time and last relayed at
-- the latest. Where one of two flags or numbers is undefined or of another kind, they are taken like
-- the other fields, and of two bigints one or the other is taken.
pub merge_tx_fields-Follow :
    (deep_equal : Value → Value → Bool) (a b : Fields) {r : Fields}
    → merge_tx_fields deep_equal a b ≡ ok r
    → Follow deep_equal a b r rules × IsPlaced deep_equal a b r
merge_tx_fields-Follow deep_equal a b {r} h =
    let (reconciled, state) = merge_tx_fields_lem deep_equal a b h in
    (
      reconciled-Follow deep_equal a b r rules reconciled,
      elim state [
        | inl confirmed ↦ inl confirmed
        | inr unconfirmed ↦
            inr (unconfirmed.0, reconciled-Follow deep_equal a b r pool_rules unconfirmed.1)
      ],
    )
