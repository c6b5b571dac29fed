-- ===== src/GenUtils/Unique.antt =====
-- `toUniqueArray` of GenUtils.ts.
use qwertycoin_ts.Common.{
  ℕ, suc, ◌≡◌, refl, false, not, ◌&&◌, List, [], ◌∷◌, ◌++◌, Option, none, some, arith, includes,
  includes-append, length, length-append, ◌==◌, same_num, if◌then◌else◌,
}
use mathlib.Core.List.{append_assoc}

-- `indexOf`; -1 is `none`.
index_of : List ℕ → ℕ → Option ℕ
index_of [] a = none
index_of (x ∷ xs) a =
    if x == a then some 0 else elim (index_of xs a) [ none ↦ none | some i ↦ some (suc i) ]

-- The `filter` over the values and their indices.
unique_from : List ℕ → ℕ → List ℕ → List ℕ
unique_from self index [] = []
unique_from self index (value ∷ rest) =
    let later = unique_from self (suc index) rest in
    if same_num (index_of self value) (some index) then value ∷ later else later

pub to_unique_array : List ℕ → List ℕ
unfolding unique_from index_of
to_unique_array arr = unique_from arr 0 arr

-- The first occurrences, given what stands before.
keep_new : List ℕ → List ℕ → List ℕ
keep_new seen [] = []
keep_new seen (x ∷ xs) =
    let later = keep_new (seen ++ x ∷ []) xs in if includes seen x then later else x ∷ later

index_of_first :
    (seen xs : List ℕ) (x : ℕ)
    → same_num (index_of (seen ++ x ∷ xs) x) (some (length seen)) ≡ not (includes seen x)
unfolding index_of
index_of_first [] xs x = ground arith
index_of_first (s ∷ seen) xs x = ground (arith, index_of_first seen xs x)

unique_from-keep_new :
    (seen xs : List ℕ) → unique_from (seen ++ xs) (length seen) xs ≡ keep_new seen xs
unfolding unique_from keep_new
unique_from-keep_new seen [] = refl
unique_from-keep_new seen (x ∷ xs) = ground (
  arith,
  index_of_first seen xs x,
  unique_from-keep_new (seen ++ x ∷ []) xs,
  append_assoc seen (x ∷ []) xs,
  length-append seen (x ∷ []),
)

keep_new-includes :
    (seen xs : List ℕ) (a : ℕ)
    → includes (keep_new seen xs) a ≡ (not (includes seen a) && includes xs a)
unfolding keep_new
keep_new-includes seen [] a = ground arith
keep_new-includes seen (x ∷ xs) a =
    ground (arith, keep_new-includes (seen ++ x ∷ []) xs a, includes-append seen (x ∷ []) a)

-- No element occurs twice.
abbrev pub IsUnique : List ℕ → Type 0
IsUnique [] = Unit
IsUnique (x ∷ xs) = (includes xs x ≡ false) × IsUnique xs

keep_new-IsUnique : (seen xs : List ℕ) → IsUnique (keep_new seen xs)
unfolding keep_new
keep_new-IsUnique seen [] = tt
keep_new-IsUnique seen (x ∷ xs) = ground (
  arith,
  keep_new-IsUnique (seen ++ x ∷ []) xs,
  keep_new-includes (seen ++ x ∷ []) xs x,
  includes-append seen (x ∷ []) x,
)

-- The result has the elements of the array, each once.
pub to_unique_array_lem :
    (arr : List ℕ)
    → IsUnique (to_unique_array arr) × ((a : ℕ) → includes (to_unique_array arr) a ≡ includes arr a)
unfolding to_unique_array
to_unique_array_lem arr = (
  rw (unique_from-keep_new [] arr) (keep_new-IsUnique [] arr),
  λ a. rw (unique_from-keep_new [] arr) (keep_new-includes [] arr a),
)
