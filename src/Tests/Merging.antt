-- ===== src/Tests/Merging.antt =====
-- Merging and payment ids at concrete inputs (MoneroTx.ts, MoneroUtils.ts).
use qwertycoin_ts.Common.{
  ◌≡◌, inr, refl, true, false, none, some, codes, List, [], ◌∷◌, Text, text_eq,
}
use qwertycoin_ts.Common.Result.{Result, ok, err}
use qwertycoin_ts.GenUtils.Reconcile.{
  Value, undefined, boolean, number, bigint, string, same, reconcile, ReconcileError,
}
use qwertycoin_ts.Merge.{
  Output, Fields, is_confirmed, in_tx_pool, received_timestamp, last_relayed_timestamp, set_field,
  merge_tx_fields, merge_each, merge_pool,
}
use qwertycoin_ts.Merge.Rules.{Follow, IsPlaced, rules, merge_tx_fields-Follow}
use qwertycoin_ts.Merge.Status.{merge_tx_fields-confirmed}
use qwertycoin_ts.Merge.Inputs.{inputs_match, merge_all}
use qwertycoin_ts.Merge.Inputs.Keys.{AreInputs, IsUnion, merge_all-IsUnion}

abbrev empty : Fields
empty f = undefined

abbrev in_pool : Fields
in_pool = set_field (set_field empty in_tx_pool (boolean true)) received_timestamp (number 70)

abbrev mined : Fields
mined = set_field empty is_confirmed (boolean true)

fields_of : Result ReconcileError Fields → Fields
fields_of (ok r) = r
fields_of (err e) = empty

merged : Fields
unfolding fields_of merge_tx_fields
merged = fields_of (merge_tx_fields same in_pool mined)

merge_returns : merge_tx_fields same in_pool mined ≡ ok merged
unfolding merged merge_tx_fields reconcile merge_each merge_pool
merge_returns = refl

merge_tx_fields-Follow_example :
    Follow same in_pool mined merged rules × IsPlaced same in_pool mined merged
merge_tx_fields-Follow_example = merge_tx_fields-Follow same in_pool mined merge_returns

merge_tx_fields-confirmed_example :
    (merged is_confirmed ≡ boolean true)
    × (merged in_tx_pool ≡ boolean false)
    × (merged received_timestamp ≡ undefined)
    × (merged last_relayed_timestamp ≡ undefined)
merge_tx_fields-confirmed_example =
    merge_tx_fields-confirmed same in_pool mined none (some true) refl refl (inr refl) merge_returns

-- Two inputs with different key images; the second has an amount, or has none yet.
abbrev input : Text → Value → Output
input hex amount = record {
  key_image = some (record { hex = string hex; signature = undefined });
  amount = amount;
  index = undefined;
  stealth_public_key = undefined;
}

abbrev old_inputs : List Output
old_inputs = input (codes "aa") (bigint 5) ∷ input (codes "bb") undefined ∷ []

abbrev new_inputs : List Output
new_inputs = input (codes "bb") (bigint 7) ∷ input (codes "cc") (bigint 9) ∷ []

old_inputs-AreInputs : AreInputs old_inputs
unfolding same text_eq
old_inputs-AreInputs = record {
  keyed = ((_, refl), ((_, refl), tt));
  distinct = (refl, (refl, tt));
}

merge_all-IsUnion_example :
    IsUnion old_inputs new_inputs (merge_all same inputs_match old_inputs new_inputs)
merge_all-IsUnion_example =
    merge_all-IsUnion same old_inputs new_inputs old_inputs-AreInputs ((_, refl), ((_, refl), tt))
