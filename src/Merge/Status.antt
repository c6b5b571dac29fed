-- ===== src/Merge/Status.antt =====
-- The status of a merged transaction (MoneroTx.ts).
use qwertycoin_ts.Common.{◌≡◌, ◌⊎◌, inl, inr, Bool, true, false, Option, none, some, arith}
use qwertycoin_ts.Common.Result.{ok}
use qwertycoin_ts.GenUtils.Reconcile
use qwertycoin_ts.GenUtils.Reconcile.{
  Value, ReconcileError, reconcile, take_true, boolean, same_iff,
}
use qwertycoin_ts.Merge.{
  Fields, is_confirmed, in_tx_pool, received_timestamp, last_relayed_timestamp, merge_tx_fields,
}
use qwertycoin_ts.Merge.Fields.{merge_tx_fields_lem}

-- A flag as a value, which may be undefined.
abbrev pub flag : Option Bool → Value
flag none = Reconcile.undefined
flag (some b) = boolean b

reconcile-flag :
    (deep_equal : Value → Value → Bool) (p q : Option Bool) (v : Value)
    → reconcile deep_equal take_true (flag p) (flag q) ≡ ok v
    → (p ≡ some true) ⊎ (q ≡ some true)
    → v ≡ boolean true
unfolding reconcile
reconcile-flag deep_equal none none v e h = ground arith
reconcile-flag deep_equal none (some true) v e h = ground arith
reconcile-flag deep_equal none (some false) v e h = ground arith
reconcile-flag deep_equal (some true) none v e h = ground arith
reconcile-flag deep_equal (some false) none v e h = ground arith
reconcile-flag deep_equal (some true) (some true) v e h = ground arith
reconcile-flag deep_equal (some true) (some false) v e h = ground arith
reconcile-flag deep_equal (some false) (some true) v e h = ground arith
reconcile-flag deep_equal (some false) (some false) v e h = ground arith

-- If one of two transactions is confirmed, and a merge returns, then the merged transaction is
-- confirmed, is not in the pool, and has no times of reception and relay.
pub merge_tx_fields-confirmed :
    (deep_equal : Value → Value → Bool) (a b : Fields) (p q : Option Bool) {r : Fields}
    → a is_confirmed ≡ flag p
    → b is_confirmed ≡ flag q
    → (p ≡ some true) ⊎ (q ≡ some true)
    → merge_tx_fields deep_equal a b ≡ ok r
    → (r is_confirmed ≡ boolean true)
      × (r in_tx_pool ≡ boolean false)
      × (r received_timestamp ≡ Reconcile.undefined)
      × (r last_relayed_timestamp ≡ Reconcile.undefined)
merge_tx_fields-confirmed deep_equal a b p q {r} ea eb h m =
    let (merged, state) = merge_tx_fields_lem deep_equal a b m in
    let flags : reconcile deep_equal take_true (flag p) (flag q) ≡ ok (r is_confirmed) =
      rw (ea, eb) at merged.1.1.1.1.1.0 in
    let now = reconcile-flag deep_equal p q (r is_confirmed) flags h in
    elim state [
      | inl s ↦ (now, s.1, s.2, s.3)
      | inr s ↦ (let clash : true ≡ false = rw now at s.0 in cc)
    ]
