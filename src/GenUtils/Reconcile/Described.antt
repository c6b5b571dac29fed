-- ===== src/GenUtils/Reconcile/Described.antt =====
-- What `reconcile` of GenUtils.ts returns for two values, described without its configuration.
use qwertycoin_ts.Common.{ℕ, ◌≡◌, ◌⊎◌, Bool, true, false, ◌||◌, max, min, arith}
use qwertycoin_ts.Common.Result.{ok}
use qwertycoin_ts.GenUtils.Reconcile.{
  Value, undefined, boolean, number, bigint, string, object, no_config, take_true, take_max,
  same_iff, reconcile,
}

-- The value that is defined, or the first of two that are the same or deeply equal.
abbrev pub IsAgreed : (Value → Value → Bool) → Value → Value → Value → Type 0
IsAgreed deep_equal a b r =
    (((a ≡ undefined) × (r ≡ b)) ⊎ ((b ≡ undefined) × (r ≡ a)))
    ⊎ ((r ≡ a) × ((a ≡ b) ⊎ (deep_equal a b ≡ true)))

-- Whether either of two flags is set. A flag may be undefined.
abbrev pub IsEither : (Value → Value → Bool) → Value → Value → Value → Type 0
IsEither deep_equal (boolean p) (boolean q) r = r ≡ boolean (p || q)
IsEither deep_equal a b r = IsAgreed deep_equal a b r

-- The number of the two that is picked. Of two bigints it is one or the other.
abbrev pub IsPicked : (ℕ → ℕ → ℕ) → (Value → Value → Bool) → Value → Value → Value → Type 0
IsPicked pick deep_equal (number m) (number n) r = r ≡ number (pick m n)
IsPicked pick deep_equal (bigint m) (bigint n) r = (r ≡ bigint m) ⊎ (r ≡ bigint n)
IsPicked pick deep_equal a b r = IsAgreed deep_equal a b r

module _ (deep_equal : Value → Value → Bool) {r : Value} where
  pub IsAgreed-reconciled :
      (a b : Value) → reconcile deep_equal no_config a b ≡ ok r → IsAgreed deep_equal a b r
  unfolding reconcile
  IsAgreed-reconciled undefined undefined h = ground arith
  IsAgreed-reconciled undefined (boolean q) h = ground arith
  IsAgreed-reconciled undefined (number n) h = ground arith
  IsAgreed-reconciled undefined (bigint n) h = ground arith
  IsAgreed-reconciled undefined (string t) h = ground arith
  IsAgreed-reconciled undefined (object j) h = ground arith
  IsAgreed-reconciled (boolean p) b h = ground (arith, same_iff (boolean p) b)
  IsAgreed-reconciled (number m) b h = ground (arith, same_iff (number m) b)
  IsAgreed-reconciled (bigint m) b h = ground (arith, same_iff (bigint m) b)
  IsAgreed-reconciled (string s) b h = ground (arith, same_iff (string s) b)
  IsAgreed-reconciled (object i) b h = ground (arith, same_iff (object i) b)

  pub IsEither-reconciled :
      (a b : Value) → reconcile deep_equal take_true a b ≡ ok r → IsEither deep_equal a b r
  unfolding reconcile
  IsEither-reconciled undefined b h = IsAgreed-reconciled undefined b h
  IsEither-reconciled (boolean p) undefined h = IsAgreed-reconciled (boolean p) undefined h
  IsEither-reconciled (boolean true) (boolean true) h = ground arith
  IsEither-reconciled (boolean true) (boolean false) h = ground arith
  IsEither-reconciled (boolean false) (boolean true) h = ground arith
  IsEither-reconciled (boolean false) (boolean false) h = ground arith
  IsEither-reconciled (boolean p) (number n) h = IsAgreed-reconciled (boolean p) (number n) h
  IsEither-reconciled (boolean p) (bigint n) h = IsAgreed-reconciled (boolean p) (bigint n) h
  IsEither-reconciled (boolean p) (string t) h = IsAgreed-reconciled (boolean p) (string t) h
  IsEither-reconciled (boolean p) (object j) h = IsAgreed-reconciled (boolean p) (object j) h
  IsEither-reconciled (number m) b h = IsAgreed-reconciled (number m) b h
  IsEither-reconciled (bigint m) b h = IsAgreed-reconciled (bigint m) b h
  IsEither-reconciled (string s) b h = IsAgreed-reconciled (string s) b h
  IsEither-reconciled (object i) b h = IsAgreed-reconciled (object i) b h

  pub greatest-IsPicked :
      (a b : Value)
      → reconcile deep_equal (take_max true) a b ≡ ok r
      → IsPicked max deep_equal a b r
  unfolding reconcile
  greatest-IsPicked undefined b h = IsAgreed-reconciled undefined b h
  greatest-IsPicked (boolean p) b h = IsAgreed-reconciled (boolean p) b h
  greatest-IsPicked (number m) undefined h = IsAgreed-reconciled (number m) undefined h
  greatest-IsPicked (number m) (boolean q) h = IsAgreed-reconciled (number m) (boolean q) h
  greatest-IsPicked (number m) (number n) h = ground arith
  greatest-IsPicked (number m) (bigint n) h = IsAgreed-reconciled (number m) (bigint n) h
  greatest-IsPicked (number m) (string t) h = IsAgreed-reconciled (number m) (string t) h
  greatest-IsPicked (number m) (object j) h = IsAgreed-reconciled (number m) (object j) h
  greatest-IsPicked (bigint m) undefined h = IsAgreed-reconciled (bigint m) undefined h
  greatest-IsPicked (bigint m) (boolean q) h = IsAgreed-reconciled (bigint m) (boolean q) h
  greatest-IsPicked (bigint m) (number n) h = IsAgreed-reconciled (bigint m) (number n) h
  greatest-IsPicked (bigint m) (bigint n) h = ground arith
  greatest-IsPicked (bigint m) (string t) h = IsAgreed-reconciled (bigint m) (string t) h
  greatest-IsPicked (bigint m) (object j) h = IsAgreed-reconciled (bigint m) (object j) h
  greatest-IsPicked (string s) b h = IsAgreed-reconciled (string s) b h
  greatest-IsPicked (object i) b h = IsAgreed-reconciled (object i) b h

  pub least-IsPicked :
      (a b : Value)
      → reconcile deep_equal (take_max false) a b ≡ ok r
      → IsPicked min deep_equal a b r
  unfolding reconcile
  least-IsPicked undefined b h = IsAgreed-reconciled undefined b h
  least-IsPicked (boolean p) b h = IsAgreed-reconciled (boolean p) b h
  least-IsPicked (number m) undefined h = IsAgreed-reconciled (number m) undefined h
  least-IsPicked (number m) (boolean q) h = IsAgreed-reconciled (number m) (boolean q) h
  least-IsPicked (number m) (number n) h = ground arith
  least-IsPicked (number m) (bigint n) h = IsAgreed-reconciled (number m) (bigint n) h
  least-IsPicked (number m) (string t) h = IsAgreed-reconciled (number m) (string t) h
  least-IsPicked (number m) (object j) h = IsAgreed-reconciled (number m) (object j) h
  least-IsPicked (bigint m) undefined h = IsAgreed-reconciled (bigint m) undefined h
  least-IsPicked (bigint m) (boolean q) h = IsAgreed-reconciled (bigint m) (boolean q) h
  least-IsPicked (bigint m) (number n) h = IsAgreed-reconciled (bigint m) (number n) h
  least-IsPicked (bigint m) (bigint n) h = ground arith
  least-IsPicked (bigint m) (string t) h = IsAgreed-reconciled (bigint m) (string t) h
  least-IsPicked (bigint m) (object j) h = IsAgreed-reconciled (bigint m) (object j) h
  least-IsPicked (string s) b h = IsAgreed-reconciled (string s) b h
  least-IsPicked (object i) b h = IsAgreed-reconciled (object i) b h
