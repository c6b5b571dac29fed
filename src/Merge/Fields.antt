-- ===== src/Merge/Fields.antt =====
-- What `merge` of MoneroTx.ts does to the fields of a transaction.
use qwertycoin_ts.Common.{
  ◌≡◌, ◌≢◌, ◌⊎◌, inl, inr, refl, sym, ◌∙◌, subst, Bool, true, false, List, [], ◌∷◌, arith, All,
  Bool-cases,
}
use qwertycoin_ts.Common.Result.{ok-injective, Result, ok, err, ◌>>=◌}
use qwertycoin_ts.GenUtils.Reconcile
use qwertycoin_ts.GenUtils.Reconcile.{Value, ReconcileError, reconcile}
use qwertycoin_ts.Merge.{
  Field, Fields, is_confirmed, in_tx_pool, received_timestamp, last_relayed_timestamp,
  merged_fields, pool_fields, config_of, number_of, set_field, is_true, leave_pool, merge_each,
  merge_pool, merge_tx_fields,
}

-- No field is set twice.
abbrev pub AreDistinct : List Field → Type 0
AreDistinct [] = Unit
AreDistinct (f ∷ fs) = All (λ g. number_of g ≢ number_of f) fs × AreDistinct fs

module _ (deep_equal : Value → Value → Bool) where
  -- The two steps of a `do` block that returned.
  pub bind-cases :
      {A B : Type 0} (r : Result ReconcileError A) (f : A → Result ReconcileError B) {b : B}
      → (r >>= f) ≡ ok b
      → (a : A) × (r ≡ ok a) × (f a ≡ ok b)
  bind-cases (ok a) f h = (a, refl, h)
  bind-cases (err e) f h = cc

  merge_each_keeps :
      (a b : Fields) (fs : List Field) (g : Field) {r : Fields}
      → merge_each deep_equal a b fs ≡ ok r
      → All (λ f. number_of f ≢ number_of g) fs
      → r g ≡ a g
  unfolding merge_each
  merge_each_keeps a b [] g h d = cc
  merge_each_keeps a b (f ∷ fs) g h d =
      let (v, e, later) = bind-cases (reconcile deep_equal (config_of f) (a f) (b f)) _ h in
      merge_each_keeps (set_field a f v) b fs g later d.1 ∙ ground (arith, d.0)

  reconciled_before :
      (a b r : Fields) (f : Field) (v : Value) (fs : List Field)
      → All (λ g. reconcile deep_equal (config_of g) (set_field a f v g) (b g) ≡ ok (r g)) fs
      → All (λ g. number_of g ≢ number_of f) fs
      → All (λ g. reconcile deep_equal (config_of g) (a g) (b g) ≡ ok (r g)) fs
  reconciled_before a b r f v [] h d = tt
  reconciled_before a b r f v (g ∷ fs) h d =
      let same : set_field a f v g ≡ a g = ground (arith, d.0) in
      (
        subst (λ x. reconcile deep_equal (config_of g) x (b g) ≡ ok (r g)) same h.0,
        reconciled_before a b r f v fs h.1 d.1,
      )

  pub merge_each_lem :
      (a b : Fields) (fs : List Field) {r : Fields}
      → AreDistinct fs
      → merge_each deep_equal a b fs ≡ ok r
      → All (λ f. reconcile deep_equal (config_of f) (a f) (b f) ≡ ok (r f)) fs
  unfolding merge_each
  merge_each_lem a b [] d h = tt
  merge_each_lem a b (f ∷ fs) {r} d h =
      let (v, e, later) = bind-cases (reconcile deep_equal (config_of f) (a f) (b f)) _ h in
      let kept : r f ≡ v = merge_each_keeps (set_field a f v) b fs f later d.0 ∙ ground arith in
      (
        subst (λ x. reconcile deep_equal (config_of f) (a f) (b f) ≡ ok x) (sym kept) e,
        reconciled_before a b r f v fs (merge_each_lem (set_field a f v) b fs d.1 later) d.0,
      )

  merge_pool_confirmed :
      (a b : Fields) {r : Fields}
      → is_true (a is_confirmed) ≡ true
      → merge_pool deep_equal a b ≡ ok r
      → leave_pool a ≡ r
  unfolding merge_pool
  merge_pool_confirmed a b confirmed h = ok-injective (rw confirmed at h)

  merge_pool_unconfirmed :
      (a b : Fields) {r : Fields}
      → is_true (a is_confirmed) ≡ false
      → merge_pool deep_equal a b ≡ ok r
      → merge_each deep_equal a b pool_fields ≡ ok r
  unfolding merge_pool
  merge_pool_unconfirmed a b unconfirmed h = rw unconfirmed at h

  merge_pool_keeps :
      (a b : Fields) (g : Field) {r : Fields}
      → merge_pool deep_equal a b ≡ ok r
      → All (λ f. number_of f ≢ number_of g) pool_fields
      → r g ≡ a g
  merge_pool_keeps a b g h d = elim (Bool-cases (is_true (a is_confirmed))) [
    | inl confirmed ↦
        subst (λ (x : Fields). x g ≡ a g) (merge_pool_confirmed a b confirmed h)
          (ground (arith, d.0, d.1.0, d.1.1.0))
    | inr unconfirmed ↦
        merge_each_keeps a b pool_fields g (merge_pool_unconfirmed a b unconfirmed h) d
  ]

merged-AreDistinct : AreDistinct merged_fields
merged-AreDistinct = ground arith

pool-AreDistinct : AreDistinct pool_fields
pool-AreDistinct = ground arith

merged_apart : All (λ g. All (λ f. number_of f ≢ number_of g) pool_fields) merged_fields
merged_apart = ground arith

-- What a transaction becomes: in the pool with its times, or out of it without them.
abbrev pub IsPoolState : (Value → Value → Bool) → Fields → Fields → Fields → Type 0
IsPoolState deep_equal a b r =
    ((is_true (r is_confirmed) ≡ true)
      × (r in_tx_pool ≡ Reconcile.boolean false)
      × (r received_timestamp ≡ Reconcile.undefined)
      × (r last_relayed_timestamp ≡ Reconcile.undefined))
    ⊎ ((is_true (r is_confirmed) ≡ false)
        × All (λ f. reconcile deep_equal (config_of f) (a f) (b f) ≡ ok (r f)) pool_fields)

module _ (deep_equal : Value → Value → Bool) (a b c r : Fields) where
  kept-All :
      (fs : List Field)
      → merge_pool deep_equal c b ≡ ok r
      → All (λ g. All (λ f. number_of f ≢ number_of g) pool_fields) fs
      → All (λ f. reconcile deep_equal (config_of f) (a f) (b f) ≡ ok (c f)) fs
      → All (λ f. reconcile deep_equal (config_of f) (a f) (b f) ≡ ok (r f)) fs
  kept-All [] p d h = tt
  kept-All (f ∷ fs) p d h = (
    subst (λ x. reconcile deep_equal (config_of f) (a f) (b f) ≡ ok x)
        (sym (merge_pool_keeps deep_equal c b f p d.0)) h.0,
    kept-All fs p d.1 h.1,
  )

  untouched :
      (fs : List Field)
      → merge_each deep_equal a b merged_fields ≡ ok c
      → All (λ g. All (λ f. number_of f ≢ number_of g) merged_fields) fs
      → All (λ f. reconcile deep_equal (config_of f) (c f) (b f) ≡ ok (r f)) fs
      → All (λ f. reconcile deep_equal (config_of f) (a f) (b f) ≡ ok (r f)) fs
  untouched [] e d h = tt
  untouched (f ∷ fs) e d h = (
    subst (λ x. reconcile deep_equal (config_of f) x (b f) ≡ ok (r f))
        (merge_each_keeps deep_equal a b merged_fields f e d.0) h.0,
    untouched fs e d.1 h.1,
  )

  pool_apart : All (λ g. All (λ f. number_of f ≢ number_of g) merged_fields) pool_fields
  pool_apart = ground arith

  confirmed_kept : merge_pool deep_equal c b ≡ ok r → r is_confirmed ≡ c is_confirmed
  confirmed_kept p = merge_pool_keeps deep_equal c b is_confirmed p (ground arith)

  pool_state :
      merge_each deep_equal a b merged_fields ≡ ok c
      → merge_pool deep_equal c b ≡ ok r
      → IsPoolState deep_equal a b r
  pool_state e p = elim (Bool-cases (is_true (c is_confirmed))) [
    | inl confirmed ↦
        let left : leave_pool c ≡ r = merge_pool_confirmed deep_equal c b confirmed p in
        inl (
          rw (confirmed_kept p) confirmed,
          subst (λ (x : Fields). x in_tx_pool ≡ Reconcile.boolean false) left refl,
          subst (λ (x : Fields). x received_timestamp ≡ Reconcile.undefined) left refl,
          subst (λ (x : Fields). x last_relayed_timestamp ≡ Reconcile.undefined) left refl,
        )
    | inr unconfirmed ↦ inr (
      rw (confirmed_kept p) unconfirmed,
      untouched pool_fields e pool_apart (
          merge_each_lem deep_equal c b pool_fields pool-AreDistinct
            (merge_pool_unconfirmed deep_equal c b unconfirmed p)),
    )
  ]

-- A merge that returns has reconciled every field of the list, under the configuration of the field. A merged transaction that is confirmed is out of the pool and has no times of
-- reception and relay; of one that is not, these are reconciled too.
pub merge_tx_fields_lem :
    (deep_equal : Value → Value → Bool) (a b : Fields) {r : Fields}
    → merge_tx_fields deep_equal a b ≡ ok r
    → All (λ f. reconcile deep_equal (config_of f) (a f) (b f) ≡ ok (r f)) merged_fields
      × IsPoolState deep_equal a b r
unfolding merge_tx_fields
merge_tx_fields_lem deep_equal a b {r} h =
    let (c, e, p) = bind-cases deep_equal (merge_each deep_equal a b merged_fields) _ h in
    (
      kept-All deep_equal a b c r merged_fields p merged_apart
          (merge_each_lem deep_equal a b merged_fields merged-AreDistinct e),
      pool_state deep_equal a b c r e p,
    )
