-- ===== src/Queries/Criteria.antt =====
-- Single criteria of a query (the `if` statements of `meetsCriteria` in MoneroTxQuery.ts,
-- MoneroTransferQuery.ts and MoneroOutputQuery.ts): a criterion that is undefined is met.
use qwertycoin_ts.Common.{
  ℕ, ◌≤◌, ◌≡◌, ◌≢◌, ◌↔◌, ◌⊎◌, inl, inr, refl, Bool, true, false, not, ◌&&◌, ◌||◌, List, [], ◌∷◌,
  Option, none, some, arith, ltb, ◌==◌, includes, Text, text_eq, text_eq_iff, includes_text,
  same_flag, same_flag_iff,
}

abbrev pub is_present : Option Text → Bool
is_present none = false
is_present (some _) = true

-- A value that the query names must be the value at hand.
unfoldable pub text_met : Option Text → Option Text → Bool
text_met none v = true
text_met (some a) none = false
text_met (some a) (some b) = text_eq a b

unfoldable pub num_met : Option ℕ → Option ℕ → Bool
num_met none v = true
num_met (some a) none = false
num_met (some a) (some b) = a == b

unfoldable pub flag_met : Option Bool → Option Bool → Bool
flag_met none v = true
flag_met (some a) v = same_flag (some a) v

-- The query asks whether something is there.
unfoldable pub presence_met : Option Bool → Bool → Bool
presence_met none present = true
presence_met (some true) present = present
presence_met (some false) present = not present

-- The query asks whether a flag is true, where undefined is not.
unfoldable pub truth_met : Option Bool → Option Bool → Bool
truth_met none v = true
truth_met (some b) none = not b
truth_met (some true) (some v) = v
truth_met (some false) (some v) = not v

-- A lower bound that a missing number passes.
unfoldable pub min_met : Option ℕ → Option ℕ → Bool
min_met (some lo) (some v) = not (ltb v lo)
min_met _ _ = true

-- An upper bound that a missing number does not pass.
unfoldable pub max_met : Option ℕ → Option ℕ → Bool
max_met none v = true
max_met (some hi) none = false
max_met (some hi) (some v) = not (ltb hi v)

-- `includes`, where undefined is in no list.
unfoldable pub text_listed : Option (List Text) → Option Text → Bool
text_listed none v = true
text_listed (some as') none = false
text_listed (some as') (some v) = includes_text as' v

unfoldable pub num_listed : Option (List ℕ) → Option ℕ → Bool
num_listed none v = true
num_listed (some ns) none = false
num_listed (some ns) (some v) = includes ns v

-- What the tests decide.
abbrev pub Wants {ℓ} : {A : Type ℓ} → Option A → Option A → Type ℓ
Wants q v = (q ≡ none) ⊎ (q ≡ v)

abbrev pub WantsTruth : Option Bool → Type 0 → Type 0
WantsTruth none P = Unit
WantsTruth (some true) P = P
WantsTruth (some false) P = ¬ P

-- A bound on a number that must be known, and one that a missing number passes.
abbrev pub IsAtMost : Option ℕ → Option ℕ → Type 0
IsAtMost none v = Unit
IsAtMost (some hi) none = ⊥
IsAtMost (some hi) (some n) = n ≤ hi

abbrev pub IsAtLeast : Option ℕ → Option ℕ → Type 0
IsAtLeast (some lo) (some n) = lo ≤ n
IsAtLeast _ _ = Unit

abbrev pub IsKnownAtLeast : Option ℕ → Option ℕ → Type 0
IsKnownAtLeast none v = Unit
IsKnownAtLeast (some lo) none = ⊥
IsKnownAtLeast (some lo) (some n) = lo ≤ n

-- The value is one of those listed.
abbrev pub Occurs : {A : Type 0} → List A → A → Type 0
Occurs [] a = ⊥
Occurs (x ∷ xs) a = (x ≡ a) ⊎ Occurs xs a

abbrev pub IsListed : {A : Type 0} → Option (List A) → Option A → Type 0
IsListed none v = Unit
IsListed (some as') none = ⊥
IsListed (some as') (some v) = Occurs as' v

infixl 35 ◌⊓◌
abbrev pub ◌⊓◌ : Type 0 → Type 0 → Type 0
P ⊓ Q = P × Q

pub &&_iff :
    {P Q : Type 0} {a b : Bool} → ((a ≡ true) ↔ P) → ((b ≡ true) ↔ Q) → ((a && b) ≡ true) ↔ (P ⊓ Q)
&&_iff {a = true} {b = true} p q = (λ h. (p.0 refl, q.0 refl), λ h. refl)
&&_iff {a = true} {b = false} p q = (λ h. (p.0 refl, q.0 h), λ h. q.1 h.1)
&&_iff {a = false} {b = b} p q = (λ h. absurd (cc), λ h. p.1 h.0)

pub text_met_iff : (q v : Option Text) → (text_met q v ≡ true) ↔ Wants q v
unfolding text_met
text_met_iff none v = ground arith
text_met_iff (some a) none = ground arith
text_met_iff (some a) (some b) = ground (arith, text_eq_iff a b)

pub num_met_iff : (q v : Option ℕ) → (num_met q v ≡ true) ↔ Wants q v
unfolding num_met
num_met_iff none v = ground arith
num_met_iff (some a) none = ground arith
num_met_iff (some a) (some b) = ground arith

pub flag_met_iff : (q v : Option Bool) → (flag_met q v ≡ true) ↔ Wants q v
unfolding flag_met
flag_met_iff none v = ground arith
flag_met_iff (some a) v = ground (arith, same_flag_iff (some a) v)

pub presence_met_iff :
    (q : Option Bool) (v : Option Text)
    → (presence_met q (is_present v) ≡ true) ↔ WantsTruth q (v ≢ none)
unfolding presence_met
presence_met_iff none v = ground arith
presence_met_iff (some true) none = ground arith
presence_met_iff (some true) (some v) = ground arith
presence_met_iff (some false) none = ground arith
presence_met_iff (some false) (some v) = ground arith

pub truth_met_iff : (q v : Option Bool) → (truth_met q v ≡ true) ↔ WantsTruth q (v ≡ some true)
unfolding truth_met
truth_met_iff none v = ground arith
truth_met_iff (some true) none = ground arith
truth_met_iff (some false) none = ground arith
truth_met_iff (some true) (some true) = ground arith
truth_met_iff (some true) (some false) = ground arith
truth_met_iff (some false) (some true) = ground arith
truth_met_iff (some false) (some false) = ground arith

pub min_met_iff : (q v : Option ℕ) → (min_met q v ≡ true) ↔ IsAtLeast q v
unfolding min_met
min_met_iff none v = ground arith
min_met_iff (some lo) none = ground arith
min_met_iff (some lo) (some v) = ground arith

pub max_met_iff : (q v : Option ℕ) → (max_met q v ≡ true) ↔ IsAtMost q v
unfolding max_met
max_met_iff none v = ground arith
max_met_iff (some hi) none = ground arith
max_met_iff (some hi) (some v) = ground arith

pub includes_text_iff : (as' : List Text) (v : Text) → (includes_text as' v ≡ true) ↔ Occurs as' v
unfolding includes_text
includes_text_iff [] v = ground arith
includes_text_iff (a ∷ as') v = ground (arith, text_eq_iff a v, includes_text_iff as' v)

pub includes_iff : (ns : List ℕ) (v : ℕ) → (includes ns v ≡ true) ↔ Occurs ns v
includes_iff [] v = ground arith
includes_iff (n ∷ ns) v = ground (arith, includes_iff ns v)

pub text_listed_iff :
    (q : Option (List Text)) (v : Option Text) → (text_listed q v ≡ true) ↔ IsListed q v
unfolding text_listed
text_listed_iff none v = ground arith
text_listed_iff (some as') none = ground arith
text_listed_iff (some as') (some v) = includes_text_iff as' v

pub num_listed_iff : (q : Option (List ℕ)) (v : Option ℕ) → (num_listed q v ≡ true) ↔ IsListed q v
unfolding num_listed
num_listed_iff none v = ground arith
num_listed_iff (some ns) none = ground arith
num_listed_iff (some ns) (some v) = includes_iff ns v

pub ||_iff :
    {P Q : Type 0} {a b : Bool} → ((a ≡ true) ↔ P) → ((b ≡ true) ↔ Q) → ((a || b) ≡ true) ↔ (P ⊎ Q)
||_iff {a = true} p q = (λ h. inl (p.0 refl), λ h. refl)
||_iff {a = false} p q =
    (λ h. inr (q.0 h), λ h. elim h [ inl x ↦ absurd (cc (p.1 x)) | inr y ↦ q.1 y ])
