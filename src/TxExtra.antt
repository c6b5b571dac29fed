-- ===== src/TxExtra.antt =====
-- `getLastTxPubKey` of common/MoneroUtils.ts. The index into the bytes is the list of the bytes from
-- it on; an index that is no number ends the loop.
pub mod Fields
use qwertycoin_ts.Common.{
  ℕ, zero, suc, ◌+◌, ◌-◌, ◌*◌, ◌/◌, ◌%◌, Bool, ◌||◌, List, [], ◌∷◌, ◌++◌, ltb, ◌==◌, if◌then◌else◌,
  Text, length, take, drop,
}
use qwertycoin_ts.Common.Result.{Result, ok, err, ◌>>=◌}

-- `out_of_fuel` is not an error of the source: the loop goes on.
pub data ExtraError : Type 0 where
  invalid_tag : ℕ → ExtraError
  out_of_fuel : ExtraError

abbrev pub hex_digit : ℕ → ℕ
hex_digit n = if ltb n 10 then b'0' + n else b'a' + n - 10

-- `Buffer.from(new Uint8Array(bytes)).toString("hex")`
unfoldable pub to_hex : List ℕ → Text
to_hex [] = []
to_hex (b ∷ bytes) = hex_digit (b % 256 / 16) ∷ hex_digit (b % 16) ∷ to_hex bytes

abbrev pub key_size : ℕ
key_size = 32

-- What is left behind a field that starts with its size; without a size the index is NaN.
abbrev pub after_sized : List ℕ → List ℕ
after_sized [] = []
after_sized (size ∷ bytes) = drop size bytes

-- What is left behind a key, where the loop advances by one byte more.
abbrev pub after_key : List ℕ → List ℕ
after_key bytes = drop (suc key_size) bytes

-- The loop over the fields, given the last key.
unfoldable pub scan : ℕ → List ℕ → List ℕ → Result ExtraError (List ℕ)
scan fuel [] last = ok last
scan zero (tag ∷ bytes) last = err out_of_fuel
scan (suc fuel) (tag ∷ bytes) last =
    let sized = scan fuel (after_sized bytes) last in
    let key = scan fuel (after_key bytes) (take key_size bytes) in
    if tag == 0 || tag == 2 then sized else if tag == 1 then key else err (invalid_tag tag)

-- Without a key, the slice from undefined to NaN is empty.
unfoldable pub get_last_tx_pub_key : List ℕ → Result ExtraError Text
unfolding scan to_hex
get_last_tx_pub_key tx_extra = do key ← scan (length tx_extra) tx_extra []; ok (to_hex key)
