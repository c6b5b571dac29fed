-- ===== src/GenUtils/Strings.antt =====
-- `isHex`, `isBase32`, `isBase58` and `normalizeUri` of GenUtils.ts, over UTF-16 code units. A
-- regular expression is written out as the test that it makes.
use qwertycoin_ts.Common.{
  ℕ, suc, ◌≤◌, ◌≡◌, ◌≢◌, ◌↔◌, refl, ap, ◌∙◌, Bool, true, false, not, ◌&&◌, ◌||◌, [], ◌∷◌, ◌++◌,
  arith, leb, ◌==◌, if◌then◌else◌, All, length, Text, codes, Bool-cases, inl, inr,
}
use qwertycoin_ts.Common.Result.{Result, ok, err}

pub data TextError : Type 0 where
  no_uri empty_text : TextError

abbrev in_range : ℕ → ℕ → ℕ → Bool
in_range lo hi c = leb lo c && leb c hi

abbrev pub is_digit : ℕ → Bool
is_digit c = in_range b'0' b'9' c

abbrev is_lower : ℕ → Bool
is_lower c = in_range b'a' b'z' c

abbrev is_upper : ℕ → Bool
is_upper c = in_range b'A' b'Z' c

-- `([0-9]|[a-f])` with the flag `i`.
abbrev pub is_hex_unit : ℕ → Bool
is_hex_unit c = is_digit c || in_range b'a' b'f' c || in_range b'A' b'F' c

-- The number of matches of a global search for a class of one code unit.
count_matches : (ℕ → Bool) → Text → ℕ
count_matches p [] = 0
count_matches p (c ∷ s) = if p c then suc (count_matches p s) else count_matches p s

unfoldable pub is_hex : Text → Bool
unfolding count_matches
is_hex s = not (length s == 0) && count_matches is_hex_unit s == length s

-- `^[…]+$` on a text that is not empty.
every_unit : (ℕ → Bool) → Text → Bool
every_unit p [] = true
every_unit p (c ∷ s) = p c && every_unit p s

abbrev of_class : (ℕ → Bool) → Text → Result TextError Bool
of_class p s = if length s == 0 then err empty_text else ok (every_unit p s)

unfoldable pub is_base32 : Text → Result TextError Bool
unfolding every_unit
is_base32 s = of_class (λ c. is_upper c || in_range b'2' b'7' c) s

-- No 0, O, I and l.
abbrev is_base58_unit : ℕ → Bool
is_base58_unit c =
    in_range b'1' b'9' c
    || (is_upper c && not (c == b'O') && not (c == b'I'))
    || (is_lower c && not (c == b'l'))

unfoldable pub is_base58 : Text → Result TextError Bool
unfolding every_unit
is_base58 s = of_class is_base58_unit s

-- `uri.replace(/\/$/, "")`
unfoldable pub strip_slash : Text → Text
strip_slash [] = []
strip_slash (c ∷ []) = if c == b'/' then [] else c ∷ []
strip_slash (c ∷ d ∷ s) = c ∷ strip_slash (d ∷ s)

-- `\w`
abbrev is_word_unit : ℕ → Bool
is_word_unit c = is_digit c || is_lower c || is_upper c || c == b'_'

-- `.` does not match LF, CR, LS and PS.
abbrev pub is_line_end : ℕ → Bool
is_line_end c = c == 10 || c == 13 || c == 8232 || c == 8233

-- What follows `\w+` in `^\w+://.+`.
has_scheme_end : Text → Bool
has_scheme_end (a ∷ b ∷ c ∷ d ∷ s) = a == b':' && b == b'/' && c == b'/' && not (is_line_end d)
has_scheme_end _ = false

-- The word is matched to its end, since ":" is not in `\w`.
scheme_from : Text → Bool
scheme_from [] = false
scheme_from (c ∷ s) =
    let rest = scheme_from s in if is_word_unit c then rest else has_scheme_end (c ∷ s)

unfoldable pub has_protocol : Text → Bool
unfolding scheme_from has_scheme_end
has_protocol [] = false
has_protocol (c ∷ s) = is_word_unit c && scheme_from s

unfoldable pub normalize_uri : Text → Result TextError Text
unfolding strip_slash has_protocol
normalize_uri [] = err no_uri
normalize_uri (c ∷ s) =
    let uri = strip_slash (c ∷ s) in ok (if has_protocol uri then uri else codes "http://" ++ uri)

count_matches-le : (p : ℕ → Bool) (s : Text) → count_matches p s ≤ length s
unfolding count_matches
count_matches-le p [] = omega arith
count_matches-le p (c ∷ s) = ground (arith, count_matches-le p s)

count_matches-eq_iff :
    (p : ℕ → Bool) (s : Text) → (count_matches p s ≡ length s) ↔ All (λ c. p c ≡ true) s
unfolding count_matches
count_matches-eq_iff p [] = ground arith
count_matches-eq_iff p (c ∷ s) = ground (arith, count_matches-eq_iff p s, count_matches-le p s)

test_iff : (m n : ℕ) → ((not (suc n == 0) && m == suc n) ≡ true) ↔ (m ≡ suc n)
test_iff m n = ground arith

-- `isHex` accepts exactly the texts that are not empty and consist of hexadecimal digits.
pub is_hex_iff : (s : Text) → (is_hex s ≡ true) ↔ ((s ≢ []) × All (λ c. is_hex_unit c ≡ true) s)
unfolding is_hex
is_hex_iff [] = ground arith
is_hex_iff (c ∷ s) =
    let counted = count_matches-eq_iff is_hex_unit (c ∷ s) in
    let test = test_iff (count_matches is_hex_unit (c ∷ s)) (length s) in
    ((λ e. ((λ n. cc), counted.0 (test.0 e))), (λ h. test.1 (counted.1 h.1)))

has_protocol_http :
    (d : ℕ) (s : Text) → has_protocol (codes "http://" ++ d ∷ s) ≡ not (is_line_end d)
unfolding has_protocol
has_protocol_http d s = refl

-- A text that does not end in a slash.
abbrev pub EndsPlain : Text → Type 0
EndsPlain [] = Unit
EndsPlain (c ∷ []) = c ≢ b'/'
EndsPlain (c ∷ d ∷ s) = EndsPlain (d ∷ s)

strip_slash_plain : (s : Text) → EndsPlain s → strip_slash s ≡ s
unfolding strip_slash
strip_slash_plain [] h = refl
strip_slash_plain (c ∷ []) h = ground arith
strip_slash_plain (c ∷ d ∷ s) h = ap (◌∷◌ c) (strip_slash_plain (d ∷ s) h)

-- A URI that, without one trailing slash, begins with a code unit that ends no line is normalized
-- to a text with a protocol.
pub normalize_uri-has_protocol :
    (uri : Text) (d : ℕ) (s : Text)
    → strip_slash uri ≡ d ∷ s
    → is_line_end d ≡ false
    → (v : Text) × (normalize_uri uri ≡ ok v) × (has_protocol v ≡ true)
unfolding normalize_uri
normalize_uri-has_protocol [] d s e h = cc
normalize_uri-has_protocol (c ∷ u) d s e h = elim (Bool-cases (has_protocol (d ∷ s))) [
  | inl plain ↦ (d ∷ s, rw (e, plain), plain)
  | inr bare ↦ (codes "http://" ++ d ∷ s, rw (e, bare), has_protocol_http d s ∙ rw h)
]

-- A text with a protocol that ends in no slash is normalized to itself.
pub normalize_uri_fixed :
    (uri : Text) → has_protocol uri ≡ true → EndsPlain uri → normalize_uri uri ≡ ok uri
unfolding normalize_uri
normalize_uri_fixed [] h e = cc
normalize_uri_fixed (c ∷ u) h e = rw (strip_slash_plain (c ∷ u) e, h)
