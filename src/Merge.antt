-- ===== src/Merge.antt =====
-- `merge` of daemon/model/MoneroTx.ts, MoneroOutput.ts and MoneroKeyImage.ts. The model starts after
-- the blocks of two transactions have been compared. A field is a value of GenUtils/Reconcile.antt. When
-- a reconciliation throws, what was set before is not modelled: the result is the error.
pub mod Fields
pub mod Rules
pub mod Status
pub mod Inputs
use qwertycoin_ts.Common.{
  ℕ, Bool, true, false, not, ◌&&◌, ◌||◌, List, [], ◌∷◌, ◌++◌, Option, none, some, ◌==◌,
  if◌then◌else◌, Text, text_eq,
}
use qwertycoin_ts.Common.Result.{Result, ok, err, ◌>>=◌}
use qwertycoin_ts.GenUtils.Reconcile
use qwertycoin_ts.GenUtils.Reconcile.{
  Value, Config, no_config, take_true, take_max, reconcile, same, ReconcileError,
}

-- The fields that are reconciled, but for inputs and outputs.
pub data Field : Type 0 where
  hash version payment_id fee ring_size is_confirmed is_miner_tx relay is_relayed : Field
  is_double_spend_seen key full_hex pruned_hex prunable_hex prunable_hash size weight : Field
  output_indices metadata extra rct_signatures rct_sig_prunable is_kept_by_block : Field
  is_failed last_failed_height last_failed_hash max_used_block_height : Field
  max_used_block_hash signatures unlock_time num_confirmations : Field
  in_tx_pool received_timestamp last_relayed_timestamp : Field

abbrev pub Fields : Type 0
Fields = Field → Value

-- The fields that are always reconciled, in the order of the source.
abbrev pub merged_fields : List Field
merged_fields =
    hash ∷ version ∷ payment_id ∷ fee ∷ ring_size ∷ is_confirmed ∷ is_miner_tx ∷ relay ∷ is_relayed
    ∷ is_double_spend_seen ∷ key ∷ full_hex ∷ pruned_hex ∷ prunable_hex ∷ prunable_hash ∷ size
    ∷ weight ∷ output_indices ∷ metadata ∷ extra ∷ rct_signatures ∷ rct_sig_prunable
    ∷ is_kept_by_block ∷ is_failed ∷ last_failed_height ∷ last_failed_hash ∷ max_used_block_height
    ∷ max_used_block_hash ∷ signatures ∷ unlock_time ∷ num_confirmations ∷ []

-- The fields of a transaction that is not confirmed, which are reconciled last.
abbrev pub pool_fields : List Field
pool_fields = in_tx_pool ∷ received_timestamp ∷ last_relayed_timestamp ∷ []

abbrev pub config_of : Field → Config
config_of is_confirmed = take_true
config_of relay = take_true
config_of is_relayed = take_true
config_of is_double_spend_seen = take_true
config_of is_failed = take_true
config_of num_confirmations = take_max true
config_of in_tx_pool = take_true
config_of received_timestamp = take_max false
config_of last_relayed_timestamp = take_max true
config_of _ = no_config

-- A number for each field.
abbrev pub number_of : Field → ℕ
number_of hash = 0
number_of version = 1
number_of payment_id = 2
number_of fee = 3
number_of ring_size = 4
number_of is_confirmed = 5
number_of is_miner_tx = 6
number_of relay = 7
number_of is_relayed = 8
number_of is_double_spend_seen = 9
number_of key = 10
number_of full_hex = 11
number_of pruned_hex = 12
number_of prunable_hex = 13
number_of prunable_hash = 14
number_of size = 15
number_of weight = 16
number_of output_indices = 17
number_of metadata = 18
number_of extra = 19
number_of rct_signatures = 20
number_of rct_sig_prunable = 21
number_of is_kept_by_block = 22
number_of is_failed = 23
number_of last_failed_height = 24
number_of last_failed_hash = 25
number_of max_used_block_height = 26
number_of max_used_block_hash = 27
number_of signatures = 28
number_of unlock_time = 29
number_of num_confirmations = 30
number_of in_tx_pool = 31
number_of received_timestamp = 32
number_of last_relayed_timestamp = 33

-- A setter.
abbrev pub set_field : Fields → Field → Value → Fields
set_field a f v g = if number_of g == number_of f then v else a g

abbrev pub is_true : Value → Bool
is_true (Reconcile.boolean true) = true
is_true _ = false

-- A confirmed transaction is not in the pool.
abbrev pub leave_pool : Fields → Fields
leave_pool a =
    set_field
      (set_field (set_field a in_tx_pool (Reconcile.boolean false)) received_timestamp
        Reconcile.undefined)
      last_relayed_timestamp Reconcile.undefined

pub record KeyImage : Type 0 where
  pub hex : Value
  pub signature : Value

pub record Output : Type 0 where
  pub key_image : Option KeyImage
  pub amount : Value
  pub index : Value
  pub stealth_public_key : Value

module _ (deep_equal : Value → Value → Bool) where
  -- `this.setX(reconcile(this.getX(), tx.getX(), config))` for some fields.
  unfoldable pub merge_each : Fields → Fields → List Field → Result ReconcileError Fields
  merge_each a b [] = ok a
  merge_each a b (f ∷ fs) = do
    v ← reconcile deep_equal (config_of f) (a f) (b f)
    merge_each (set_field a f v) b fs

  -- The state of a transaction that was unrelayed, then relayed, then confirmed.
  unfoldable pub merge_pool : Fields → Fields → Result ReconcileError Fields
  unfolding merge_each
  merge_pool a b =
      if is_true (a is_confirmed) then ok (leave_pool a) else merge_each a b pool_fields

  -- `merge` of a transaction without inputs and outputs.
  unfoldable pub merge_tx_fields : Fields → Fields → Result ReconcileError Fields
  merge_tx_fields a b = do c ← merge_each a b merged_fields; merge_pool c b

  unfoldable pub merge_key_image : KeyImage → KeyImage → Result ReconcileError KeyImage
  merge_key_image a b = do
    hex ← reconcile deep_equal no_config a.hex b.hex
    signature ← reconcile deep_equal no_config a.signature b.signature
    ok (record { hex = hex; signature = signature })

  unfoldable pub merge_key_images :
      Option KeyImage → Option KeyImage → Result ReconcileError (Option KeyImage)
  unfolding merge_key_image
  merge_key_images none b = ok b
  merge_key_images (some a) none = ok (some a)
  merge_key_images (some a) (some b) = merge_key_image a b >>= (λ k. ok (some k))

  -- `merge` of two outputs that both belong to the same transaction.
  unfoldable pub merge_output : Output → Output → Result ReconcileError Output
  unfolding merge_key_images
  merge_output a b = do
    k ← merge_key_images a.key_image b.key_image
    amount ← reconcile deep_equal no_config a.amount b.amount
    index ← reconcile deep_equal no_config a.index b.index
    ok (record a { key_image = k; amount = amount; index = index })
