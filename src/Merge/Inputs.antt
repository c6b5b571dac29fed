-- ===== src/Merge/Inputs.antt =====
-- How `merge` of daemon/model/MoneroTx.ts merges the inputs and the outputs of two transactions. Every
-- output is set to belong to the transaction first, so two outputs that merge belong to the same one.
pub mod Keys
use qwertycoin_ts.Common.{
  ℕ, ◌≡◌, Bool, true, false, not, ◌&&◌, ◌||◌, List, [], ◌∷◌, ◌++◌, Option, none, some,
  if◌then◌else◌, Text,
}
use qwertycoin_ts.Common.Result.{Result, ok, err, ◌>>=◌}
use qwertycoin_ts.GenUtils.Reconcile
use qwertycoin_ts.GenUtils.Reconcile.{Value, same, ReconcileError}
use qwertycoin_ts.Merge.{
  Fields, KeyImage, Output, merge_output, merge_each, merged_fields, merge_pool,
}

pub data MergeError : Type 0 where
  not_reconciled : ReconcileError → MergeError
  no_key_image : MergeError

abbrev pub lift {ℓ} : {A : Type ℓ} → Result ReconcileError A → Result MergeError A
lift (ok a) = ok a
lift (err e) = err (not_reconciled e)

-- `getKeyImage().getHex()`
abbrev pub key_hex : Option KeyImage → Result MergeError Value
key_hex none = err no_key_image
key_hex (some k) = ok k.hex

-- A string that is not empty counts as true; a stealth public key is a string or undefined.
abbrev pub truthy_text : Value → Bool
truthy_text (Reconcile.string (c ∷ s)) = true
truthy_text _ = false

-- The test of two outputs by their key images.
abbrev pub same_key_image : Option KeyImage → Option KeyImage → Result MergeError Bool
same_key_image mergee none = ok false
same_key_image mergee (some k) = do hex ← key_hex mergee; ok (same hex k.hex)

unfoldable pub outputs_match : Output → Output → Result MergeError Bool
outputs_match mergee merger = do
  by_key ← same_key_image mergee.key_image merger.key_image
  ok (
      by_key
      || (truthy_text merger.stealth_public_key
          && same mergee.stealth_public_key merger.stealth_public_key))

unfoldable pub inputs_match : Output → Output → Result MergeError Bool
inputs_match mergee merger = do
  a ← key_hex mergee.key_image
  b ← key_hex merger.key_image
  ok (same a b)

module _ (deep_equal : Value → Value → Bool)
    (matches : Output → Output → Result MergeError Bool) where
  -- The loop over the mergees: the first that matches is merged, else the merger is appended.
  unfoldable pub merge_into : List Output → Output → Result MergeError (List Output)
  merge_into [] merger = ok (merger ∷ [])
  merge_into (a ∷ as') merger = do
    found ← matches a merger
    elim found [
      | true ↦ lift (merge_output deep_equal a merger) >>= (λ m. ok (m ∷ as'))
      | false ↦ merge_into as' merger >>= (λ rest. ok (a ∷ rest))
    ]

  -- The loop over the mergers.
  unfoldable pub merge_all : List Output → List Output → Result MergeError (List Output)
  unfolding merge_into
  merge_all as' [] = ok as'
  merge_all as' (merger ∷ mergers) = do merged ← merge_into as' merger; merge_all merged mergers

module _ (deep_equal : Value → Value → Bool) where
  -- Without an input to merge, inputs that are undefined stay so.
  unfoldable pub merge_inputs :
      Option (List Output) → Option (List Output) → Result MergeError (Option (List Output))
  unfolding merge_all inputs_match
  merge_inputs a none = ok a
  merge_inputs none (some []) = ok none
  merge_inputs none (some (m ∷ ms)) =
      merge_all deep_equal inputs_match [] (m ∷ ms) >>= (λ c. ok (some c))
  merge_inputs (some as') (some ms) =
      merge_all deep_equal inputs_match as' ms >>= (λ c. ok (some c))

  unfoldable pub merge_outputs :
      Option (List Output) → Option (List Output) → Result MergeError (Option (List Output))
  unfolding merge_all outputs_match
  merge_outputs a none = ok a
  merge_outputs none (some ms) = ok (some ms)
  merge_outputs (some as') (some ms) =
      merge_all deep_equal outputs_match as' ms >>= (λ c. ok (some c))

-- A transaction with its inputs and outputs.
pub record TxParts : Type 0 where
  pub fields : Fields
  pub inputs : Option (List Output)
  pub outputs : Option (List Output)

-- `merge` of two transactions of the same block.
unfoldable pub merge_tx : (Value → Value → Bool) → TxParts → TxParts → Result MergeError TxParts
unfolding merge_inputs merge_outputs
merge_tx deep_equal a b = do
  fields ← lift (merge_each deep_equal a.fields b.fields merged_fields)
  inputs ← merge_inputs deep_equal a.inputs b.inputs
  outputs ← merge_outputs deep_equal a.outputs b.outputs
  fields' ← lift (merge_pool deep_equal fields b.fields)
  ok (record { fields = fields'; inputs = inputs; outputs = outputs })
