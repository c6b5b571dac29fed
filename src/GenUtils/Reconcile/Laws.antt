-- ===== src/GenUtils/Reconcile/Laws.antt =====
-- What `reconcile` of GenUtils.ts returns, and when it throws.
use qwertycoin_ts.Common.{ℕ, ◌<◌, ◌≡◌, ◌≢◌, ◌↔◌, ◌⊎◌, Bool, true, false, max, min, arith}
use qwertycoin_ts.Common.Result.{ok, returns}
use qwertycoin_ts.GenUtils.Reconcile.{
  Value, undefined, boolean, number, bigint, string, object, Config, no_config, take_max, same_iff,
  reconcile,
}

module _ (deep_equal : Value → Value → Bool) where
  reconcile_self : (c : Config) (a : Value) → reconcile deep_equal c a a ≡ ok a
  unfolding reconcile
  reconcile_self c a = ground (arith, same_iff a a)

  -- Under every configuration, a value that is returned is one of the two values.
  pub reconcile-input :
      (c : Config) (a b : Value) {v : Value} → reconcile deep_equal c a b ≡ ok v → (v ≡ a) ⊎ (v ≡ b)
  unfolding reconcile
  reconcile-input c undefined undefined e = ground arith
  reconcile-input c undefined (boolean b) e = ground arith
  reconcile-input c undefined (number b) e = ground arith
  reconcile-input c undefined (bigint b) e = ground arith
  reconcile-input c undefined (string b) e = ground arith
  reconcile-input c undefined (object b) e = ground arith
  reconcile-input c (boolean a) b e = ground arith
  reconcile-input c (number a) b e = ground arith
  reconcile-input c (bigint a) b e = ground arith
  reconcile-input c (string a) b e = ground arith
  reconcile-input c (object a) b e = ground arith

  -- With `resolveMax` two JavaScript numbers are reconciled to the larger one if it is true, and to
  -- the smaller one if it is false, in either order of the arguments.
  pub reconcile-number_max :
      (a b : ℕ)
      → (reconcile deep_equal (take_max true) (number a) (number b) ≡ ok (number (max a b)))
        × (reconcile deep_equal (take_max false) (number a) (number b) ≡ ok (number (min a b)))
  unfolding reconcile
  reconcile-number_max a b = ground arith

  -- With `resolveMax` two different bigints are not compared: true returns the first and false the
  -- second, so where the first is smaller, true gives the minimum and false the maximum.
  pub reconcile-bigint_unordered :
      (a b : ℕ)
      → a < b
      → (reconcile deep_equal (take_max true) (bigint a) (bigint b) ≡ ok (bigint (min a b)))
        × (reconcile deep_equal (take_max false) (bigint a) (bigint b) ≡ ok (bigint (max a b)))
  unfolding reconcile
  reconcile-bigint_unordered a b h = ground arith

  -- Without a configuration `reconcile` throws exactly for two defined values that are neither
  -- identical nor deeply equal.
  pub reconcile-throws_iff :
      (a b : Value)
      → (returns (reconcile deep_equal no_config a b) ≡ false)
        ↔ ((a ≢ b) × (a ≢ undefined) × (b ≢ undefined) × (deep_equal a b ≡ false))
  unfolding reconcile
  reconcile-throws_iff undefined b = ground (arith, same_iff undefined b)
  reconcile-throws_iff a b = ground (arith, same_iff a b)
