-- ===== src/PaymentIds.antt =====
-- `paymentIdsEqual` and the validation of payment ids of common/MoneroUtils.ts.
use qwertycoin_ts.Common.{
  ℕ, zero, suc, ◌≤◌, ◌≡◌, ◌↔◌, Bool, true, ◌&&◌, ◌||◌, [], ◌∷◌, max, arith, ◌==◌, length, Text,
}

-- The loop over the index, as a recursion on what is left of the two ids.
unfoldable pub payment_ids_equal : Text → Text → Bool
payment_ids_equal [] [] = true
payment_ids_equal (a ∷ s) (b ∷ t) = a == b && payment_ids_equal s t
payment_ids_equal [] (b ∷ t) = b == b'0' && payment_ids_equal [] t
payment_ids_equal (a ∷ s) [] = a == b'0' && payment_ids_equal s []

-- `validatePaymentId`, whether it returns.
unfoldable pub is_valid_payment_id : Text → Bool
is_valid_payment_id s = length s == 16 || length s == 64

-- An id with zeros behind it, up to a length.
abbrev pub pad : ℕ → Text → Text
pad zero s = s
pad (suc n) [] = b'0' ∷ pad n []
pad (suc n) (c ∷ s) = c ∷ pad n s

equal_iff_pad :
    (n : ℕ) (s t : Text)
    → length s ≤ n
    → length t ≤ n
    → (payment_ids_equal s t ≡ true) ↔ (pad n s ≡ pad n t)
unfolding payment_ids_equal
equal_iff_pad n [] [] h k = ground arith
equal_iff_pad zero (a ∷ s) t h k = absurd (omega (arith, h))
equal_iff_pad zero [] (b ∷ t) h k = absurd (omega (arith, k))
equal_iff_pad (suc n) (a ∷ s) (b ∷ t) h k = ground (arith, equal_iff_pad n s t)
equal_iff_pad (suc n) [] (b ∷ t) h k = ground (arith, equal_iff_pad n [] t)
equal_iff_pad (suc n) (a ∷ s) [] h k = ground (arith, equal_iff_pad n s [])

-- Two payment ids are equal exactly when they are the same text once the shorter one is filled up
-- with zeros to the length of the longer one.
pub payment_ids_equal_iff :
    (s t : Text)
    → (payment_ids_equal s t ≡ true)
      ↔ (pad (max (length s) (length t)) s ≡ pad (max (length s) (length t)) t)
payment_ids_equal_iff s t =
    equal_iff_pad (max (length s) (length t)) s t (omega arith) (omega arith)
