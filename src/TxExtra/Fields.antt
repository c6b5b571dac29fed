-- ===== src/TxExtra/Fields.antt =====
-- The fields of a transaction's extra, and what `getLastTxPubKey` of common/MoneroUtils.ts reads of them.
use mathlib.Core.List.{append_assoc}
use qwertycoin_ts.Common.{
  ℕ, zero, suc, ◌+◌, ◌≤◌, ◌<◌, ◌≡◌, ◌≢◌, refl, ap, ◌∙◌, List, [], ◌∷◌, ◌++◌, arith, length, take,
  drop, length-append,
}
use qwertycoin_ts.Common.Result.{Result, ok, err, ◌>>=◌}
use qwertycoin_ts.TxExtra.{
  ExtraError, invalid_tag, out_of_fuel, after_sized, after_key, key_size, scan, get_last_tx_pub_key,
  to_hex,
}

length-drop : (n : ℕ) (xs : List ℕ) → length (drop n xs) ≤ length xs
length-drop zero xs = omega arith
length-drop (suc n) [] = omega arith
length-drop (suc n) (x ∷ xs) = omega (arith, length-drop n xs)

length-after_sized : (xs : List ℕ) → length (after_sized xs) ≤ length xs
length-after_sized [] = omega arith
length-after_sized (n ∷ xs) = omega (arith, length-drop n xs)

-- Fuel for each byte is enough.
scan-ends :
    (fuel : ℕ) (bytes last : List ℕ) → length bytes ≤ fuel → scan fuel bytes last ≢ err out_of_fuel
unfolding scan
scan-ends fuel [] last h = ground arith
scan-ends zero (tag ∷ bytes) last h = absurd (omega (arith, h))
scan-ends (suc fuel) (tag ∷ bytes) last h = ground (
  arith,
  h,
  scan-ends fuel (after_sized bytes) last,
  scan-ends fuel (after_key bytes) (take key_size bytes),
  length-after_sized bytes,
  length-drop (suc key_size) bytes,
)

to_hex-ends :
    (r : Result ExtraError (List ℕ))
    → r ≢ err out_of_fuel
    → (r >>= (λ key. ok (to_hex key))) ≢ err out_of_fuel
to_hex-ends (ok key) h e = ground arith
to_hex-ends (err out_of_fuel) h e = h refl
to_hex-ends (err (invalid_tag t)) h e = ground arith

-- The loop over the fields of a transaction's extra ends, with as many rounds as there are bytes.
pub get_last_tx_pub_key-ends : (tx_extra : List ℕ) → get_last_tx_pub_key tx_extra ≢ err out_of_fuel
unfolding get_last_tx_pub_key
get_last_tx_pub_key-ends tx_extra =
    to_hex-ends _ (scan-ends (length tx_extra) tx_extra [] (omega arith))

-- A field that starts with its size: padding, or a nonce.
pub data Sized : Type 0 where
  padding nonce : List ℕ → Sized

abbrev pub encode : Sized → List ℕ
encode (padding content) = 0 ∷ length content ∷ content
encode (nonce content) = 2 ∷ length content ∷ content

abbrev pub encode_all : List Sized → List ℕ
encode_all [] = []
encode_all (f ∷ fs) = encode f ++ encode_all fs

drop-append : (xs ys : List ℕ) → drop (length xs) (xs ++ ys) ≡ ys
drop-append [] ys = refl
drop-append (x ∷ xs) ys = drop-append xs ys

take-append : (xs ys : List ℕ) → take (length xs) (xs ++ ys) ≡ xs
take-append [] ys = refl
take-append (x ∷ xs) ys = ap (◌∷◌ x) (take-append xs ys)

-- The loop passes over a field.
scan-encode :
    (f : Sized) (fuel : ℕ) (rest last : List ℕ)
    → scan (suc fuel) (encode f ++ rest) last ≡ scan fuel rest last
unfolding scan
scan-encode (padding content) fuel rest last = ap (λ r. scan fuel r last) (drop-append content rest)
scan-encode (nonce content) fuel rest last = ap (λ r. scan fuel r last) (drop-append content rest)

-- It ends whatever fuel is left when no byte is.
scan-end : (fuel : ℕ) (bytes last : List ℕ) → bytes ≡ [] → scan fuel bytes last ≡ ok last
unfolding scan
scan-end fuel [] last e = refl
scan-end fuel (b ∷ bytes) last e = ground arith

drop-all : (n : ℕ) (xs : List ℕ) → length xs ≤ n → drop n xs ≡ []
drop-all zero [] h = refl
drop-all zero (x ∷ xs) h = absurd (omega (arith, h))
drop-all (suc n) [] h = refl
drop-all (suc n) (x ∷ xs) h = drop-all n xs (omega (arith, h))

take-all : (n : ℕ) (xs : List ℕ) → length xs ≡ n → take n xs ≡ xs
take-all zero [] h = refl
take-all zero (x ∷ xs) h = absurd (omega (arith, h))
take-all (suc n) [] h = absurd (omega (arith, h))
take-all (suc n) (x ∷ xs) h = ap (◌∷◌ x) (take-all n xs (omega (arith, h)))

-- A key at the end of the extra is found.
scan_key :
    (fuel : ℕ) (key last : List ℕ) → length key ≡ key_size → scan (suc fuel) (1 ∷ key) last ≡ ok key
unfolding scan
scan_key fuel key last h =
    let over : after_key key ≡ [] = drop-all (suc key_size) key (omega (arith, h)) in
    scan-end fuel (after_key key) (take key_size key) over ∙ ap ok (take-all key_size key h)

scan-encode_all :
    (fs : List Sized) (fuel : ℕ) (key last : List ℕ)
    → length fs + 1 ≤ fuel
    → length key ≡ key_size
    → scan fuel (encode_all fs ++ 1 ∷ key) last ≡ ok key
scan-encode_all fs zero key last h k = absurd (omega (arith, h))
scan-encode_all [] (suc fuel) key last h k = scan_key fuel key last k
scan-encode_all (f ∷ fs) (suc fuel) key last h k =
    ap (λ b. scan (suc fuel) b last) (append_assoc (encode f) (encode_all fs) (1 ∷ key))
    ∙ scan-encode f fuel (encode_all fs ++ 1 ∷ key) last
    ∙ scan-encode_all fs fuel key last (omega (arith, h)) k

length-encode : (f : Sized) → 1 ≤ length (encode f)
length-encode (padding content) = omega arith
length-encode (nonce content) = omega arith

length-encode_all : (fs : List Sized) → length fs ≤ length (encode_all fs)
length-encode_all [] = omega arith
length-encode_all (f ∷ fs) =
    omega (arith, length-append (encode f) (encode_all fs), length-encode f, length-encode_all fs)

-- From an extra that is the encoding of any padding and nonces, and of a key of 32 bytes as its last
-- field, the key is read back as hexadecimal text.
pub get_last_tx_pub_key-encode_all :
    (fs : List Sized) (key : List ℕ)
    → length key ≡ key_size
    → get_last_tx_pub_key (encode_all fs ++ 1 ∷ key) ≡ ok (to_hex key)
unfolding get_last_tx_pub_key
get_last_tx_pub_key-encode_all fs key k =
    ap (λ r. r >>= (λ b. ok (to_hex b)))
      (scan-encode_all fs _ key []
        (omega (arith, length-append (encode_all fs) (1 ∷ key), length-encode_all fs)) k)

drop-key :
    (n : ℕ) (key : List ℕ) (b : ℕ) (rest : List ℕ)
    → length key ≡ n
    → drop (suc n) (key ++ b ∷ rest) ≡ rest
drop-key zero [] b rest h = refl
drop-key zero (x ∷ key) b rest h = absurd (omega (arith, h))
drop-key (suc n) [] b rest h = absurd (omega (arith, h))
drop-key (suc n) (x ∷ key) b rest h = drop-key n key b rest (omega (arith, h))

scan_invalid :
    (fuel tag : ℕ) (bytes last : List ℕ)
    → 1 ≤ fuel
    → 2 < tag
    → scan fuel (tag ∷ bytes) last ≡ err (invalid_tag tag)
unfolding scan
scan_invalid zero tag bytes last h t = absurd (omega (arith, h))
scan_invalid (suc fuel) tag bytes last h t = ground arith

-- After a key the loop advances by one byte too many: with a nonce behind the key, whose size is not
-- itself a tag, the size is taken for the tag, and an error is thrown, whatever the key.
pub get_last_tx_pub_key-key_nonce :
    (key content : List ℕ)
    → length key ≡ key_size
    → 2 < length content
    → get_last_tx_pub_key (1 ∷ key ++ encode (nonce content)) ≡ err (invalid_tag (length content))
unfolding get_last_tx_pub_key scan
get_last_tx_pub_key-key_nonce key content k n =
    let behind = encode (nonce content) in
    let fuel = length (key ++ behind) in
    let skipped : scan fuel (after_key (key ++ behind)) (take key_size (key ++ behind))
        ≡ err (invalid_tag (length content)) =
      ap (λ bytes. scan fuel bytes (take key_size (key ++ behind)))
        (drop-key key_size key 2 (length content ∷ content) k)
      ∙ scan_invalid fuel (length content) content _ (omega (arith, length-append key behind)) n in
    ap (λ r. r >>= (λ b. ok (to_hex b))) skipped
