-- ===== src/Keys.antt =====
-- The validation of keys, and `isTimestamp`, of common/MoneroUtils.ts.
use qwertycoin_ts.Common.{ℕ, Bool, ◌&&◌, leb, ◌==◌, if◌then◌else◌, length, Text}
use qwertycoin_ts.Common.Result.{Result, ok, err, returns}
use qwertycoin_ts.GenUtils.Strings.{is_hex}

pub data KeyError : Type 0 where
  invalid_private_view_key invalid_public_view_key : KeyError
  invalid_private_spend_key invalid_public_spend_key : KeyError

unfoldable pub is_hex64 : Text → Bool
is_hex64 s = length s == 64 && is_hex s

unfoldable pub validate_private_view_key : Text → Result KeyError (Unit {0})
validate_private_view_key s = if is_hex64 s then ok tt else err invalid_private_view_key

unfoldable pub is_valid_private_view_key : Text → Bool
unfolding validate_private_view_key
is_valid_private_view_key s = returns (validate_private_view_key s)

unfoldable pub validate_public_view_key : Text → Result KeyError (Unit {0})
validate_public_view_key s = if is_hex64 s then ok tt else err invalid_public_view_key

unfoldable pub is_valid_public_view_key : Text → Bool
unfolding validate_public_view_key
is_valid_public_view_key s = returns (validate_public_view_key s)

unfoldable pub validate_private_spend_key : Text → Result KeyError (Unit {0})
validate_private_spend_key s = if is_hex64 s then ok tt else err invalid_private_spend_key

unfoldable pub is_valid_private_spend_key : Text → Bool
unfolding validate_private_spend_key
is_valid_private_spend_key s = returns (validate_private_spend_key s)

unfoldable pub validate_public_spend_key : Text → Result KeyError (Unit {0})
validate_public_spend_key s = if is_hex64 s then ok tt else err invalid_public_spend_key

unfoldable pub is_valid_public_spend_key : Text → Bool
unfolding validate_public_spend_key
is_valid_public_spend_key s = returns (validate_public_spend_key s)

abbrev pub timestamp_threshold : ℕ
timestamp_threshold = 500000000

-- Whether an unlock time is a timestamp, or else the height of a block.
unfoldable pub is_timestamp : ℕ → Bool
is_timestamp unlock_time = leb timestamp_threshold unlock_time
