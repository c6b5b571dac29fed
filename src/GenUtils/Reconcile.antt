-- ===== src/GenUtils/Reconcile.antt =====
-- `reconcile` of GenUtils.ts, on the values of a dynamic language. A number and a bigint are natural
-- numbers; an array or another object is known by its identity. `assert.deepEqual` is the parameter
-- `deep_equal`: it is code of Node's `assert` module.
pub mod Laws
pub mod Described
use qwertycoin_ts.Common.{
  ℕ, ◌≤◌, ◌<◌, ◌≡◌, ◌≢◌, ◌↔◌, ◌⊎◌, inl, inr, refl, Bool, true, false, ◌&&◌, ◌||◌, Option, none,
  some, max, min, arith, ltb, ◌==◌, if◌then◌else◌, same_flag, Text, text_eq, text_eq_iff,
  Bool-cases,
}
use qwertycoin_ts.Common.Result.{Result, ok, err}

pub data Value : Type 0 where
  undefined : Value
  boolean : Bool → Value
  number : ℕ → Value
  bigint : ℕ → Value
  string : Text → Value
  object : ℕ → Value

pub data ReconcileError : Type 0 where
  cannot_reconcile : Value → Value → ReconcileError

-- The configuration, each key of which may be undefined.
pub record Config : Type 0 where
  pub resolve_defined : Option Bool
  pub resolve_true : Option Bool
  pub resolve_max : Option Bool

-- No configuration, as an undefined argument.
abbrev pub no_config : Config
no_config = record { resolve_defined = none; resolve_true = none; resolve_max = none }

abbrev pub take_true : Config
take_true = record { resolve_defined = none; resolve_true = some true; resolve_max = none }

abbrev pub take_max : Bool → Config
take_max b = record { resolve_defined = none; resolve_true = none; resolve_max = some b }

-- `===`
unfoldable pub same : Value → Value → Bool
same undefined undefined = true
same (boolean a) (boolean b) = same_flag (some a) (some b)
same (number a) (number b) = a == b
same (bigint a) (bigint b) = a == b
same (string a) (string b) = text_eq a b
same (object a) (object b) = a == b
same _ _ = false

abbrev is_undefined : Value → Bool
is_undefined undefined = true
is_undefined _ = false

-- The end of the function: two values that are neither identical nor undefined.
module _ (deep_equal : Value → Value → Bool) where
  assert_deep_equal : Value → Value → Result ReconcileError Value
  assert_deep_equal a b = if deep_equal a b then ok a else err (cannot_reconcile a b)

  -- `comparison` is never assigned, and `undefined < 0` is false, so bigints are not compared.
  resolve_numbers : Option Bool → Value → Value → Result ReconcileError Value
  unfolding assert_deep_equal
  resolve_numbers (some true) (number a) (number b) = ok (number (max a b))
  resolve_numbers (some false) (number a) (number b) = ok (number (min a b))
  resolve_numbers (some true) (bigint a) (bigint b) = ok (bigint a)
  resolve_numbers (some false) (bigint a) (bigint b) = ok (bigint b)
  resolve_numbers _ a b = assert_deep_equal a b

  resolve_booleans : Config → Option Bool → Value → Value → Result ReconcileError Value
  unfolding resolve_numbers
  resolve_booleans c (some t) (boolean a) (boolean b) = ok (boolean t)
  resolve_booleans c _ a b = resolve_numbers c.resolve_max a b

  use_defined : Option Bool → Value → Value → Value
  use_defined (some false) a b = undefined
  use_defined _ undefined b = b
  use_defined _ a b = a

  unfoldable pub reconcile : Config → Value → Value → Result ReconcileError Value
  unfolding resolve_booleans use_defined same
  reconcile c a b =
      if same a b
      then ok a
      else if is_undefined a || is_undefined b
      then ok (use_defined c.resolve_defined a b)
      else resolve_booleans c c.resolve_true a b

pub same_iff : (a b : Value) → (same a b ≡ true) ↔ (a ≡ b)
unfolding same
same_iff undefined b = ground arith
same_iff (boolean a) (boolean b) = ground arith
same_iff (number a) (number b) = ground arith
same_iff (bigint a) (bigint b) = ground arith
same_iff (string a) (string b) = ground (arith, text_eq_iff a b)
same_iff (object a) (object b) = ground arith
same_iff (boolean a) _ = ground arith
same_iff (number a) _ = ground arith
same_iff (bigint a) _ = ground arith
same_iff (string a) _ = ground arith
same_iff (object a) _ = ground arith
