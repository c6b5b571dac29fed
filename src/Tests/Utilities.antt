-- ===== src/Tests/Utilities.antt =====
-- The utilities at concrete inputs (GenUtils.ts).
use qwertycoin_ts.TxExtra.{get_last_tx_pub_key, to_hex, invalid_tag}
use qwertycoin_ts.TxExtra.Fields.{
  nonce, padding, encode, encode_all, get_last_tx_pub_key-encode_all, get_last_tx_pub_key-key_nonce,
}
use qwertycoin_ts.Common.{ℕ, ◌≡◌, refl, true, List, [], ◌∷◌, ◌++◌, arith, Text, codes}
use qwertycoin_ts.Common.Result.{ok, err}
use qwertycoin_ts.GenUtils.Reconcile.{number, reconcile, take_max, same}

abbrev three : List ℕ
three = 7 ∷ 8 ∷ 9 ∷ []

abbrev local_node : Text
local_node = codes "localhost:18081/"

larger : reconcile same (take_max true) (number 3) (number 4) ≡ ok (number 4)
unfolding reconcile
larger = refl

abbrev plain_node : Text
plain_node = codes "http://n:1"

-- A key of 32 bytes.
abbrev key : List ℕ
key =
    7 ∷ 1 ∷ 2 ∷ 3 ∷ 4 ∷ 5 ∷ 6 ∷ 7 ∷ 8 ∷ 9 ∷ 10 ∷ 11 ∷ 12 ∷ 13 ∷ 14 ∷ 15 ∷ 16 ∷ 17 ∷ 18 ∷ 19 ∷ 20
    ∷ 21 ∷ 22 ∷ 23 ∷ 24 ∷ 25 ∷ 26 ∷ 27 ∷ 28 ∷ 29 ∷ 30 ∷ 255 ∷ []

get_last_tx_pub_key-encode_all_example :
    get_last_tx_pub_key (encode_all (nonce (1 ∷ 9 ∷ []) ∷ padding (0 ∷ []) ∷ []) ++ 1 ∷ key)
    ≡ ok (to_hex key)
get_last_tx_pub_key-encode_all_example =
    get_last_tx_pub_key-encode_all (nonce (1 ∷ 9 ∷ []) ∷ padding (0 ∷ []) ∷ []) key refl

get_last_tx_pub_key-key_nonce_example :
    get_last_tx_pub_key (1 ∷ key ++ encode (nonce (1 ∷ 9 ∷ 9 ∷ []))) ≡ err (invalid_tag 3)
get_last_tx_pub_key-key_nonce_example =
    get_last_tx_pub_key-key_nonce key (1 ∷ 9 ∷ 9 ∷ []) refl (omega arith)
