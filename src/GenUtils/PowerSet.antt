-- ===== src/GenUtils/PowerSet.antt =====
-- `getPowerSet`, `getPowerSetOfLength`, `getIndices` and `getCombinations` of GenUtils.ts.
pub mod Choose
pub mod Combinations
use qwertycoin_ts.Common.{
  ℕ, zero, suc, ◌+◌, Bool, List, [], ◌∷◌, ◌++◌, map, Option, leb, length, get_elem?, ◌==◌,
  if◌then◌else◌,
}
use qwertycoin_ts.Common.Result.{Result, ok, err, ◌>>=◌, ◌>>◌, guard}

pub data AssertError : Type 0 where
  not_initialized not_true : AssertError

module _ {ℓ} {A : Type ℓ} where
  -- `fn` of `getPowerSet`, with the sets that it appends to `all`. The loop over `j` is the
  -- recursion on `src`.
  unfoldable pub fn : ℕ → List A → List A → List (List A)
  fn zero src [] = []
  fn zero src (g ∷ got) = (g ∷ got) ∷ []
  fn (suc n) [] got = []
  fn (suc n) (x ∷ src) got = fn n src (got ++ x ∷ []) ++ fn (suc n) src got

  -- The loop over `i`, with the rounds that are left.
  unfoldable pub sizes_from : ℕ → ℕ → List A → List (List A)
  sizes_from zero i arr = []
  sizes_from (suc rounds) i arr = fn i arr [] ++ sizes_from rounds (suc i) arr

  unfoldable pub get_power_set : List A → List (List A)
  get_power_set arr = [] ∷ sizes_from (length arr) 0 arr ++ arr ∷ []

  unfoldable pub of_length : ℕ → List (List A) → List (List A)
  of_length size [] = []
  of_length size (s ∷ sets) =
      let rest = of_length size sets in if length s == size then s ∷ rest else rest

  -- `assertInitialized` rejects a size of 0, as it rejects every falsy value.
  unfoldable pub get_power_set_of_length : List A → ℕ → Result AssertError (List (List A))
  get_power_set_of_length arr size = do
    guard (leb 1 size) not_initialized
    guard (leb 1 size) not_true
    ok (of_length size (get_power_set arr))

unfoldable pub indices_from : ℕ → ℕ → List ℕ
indices_from zero i = []
indices_from (suc rounds) i = i ∷ indices_from rounds (suc i)

unfoldable pub get_indices : ℕ → List ℕ
unfolding indices_from
get_indices size = indices_from size 0

-- An element of the result is `arr[i]`, which may be undefined.
unfoldable pub get_combinations {ℓ} :
    {A : Type ℓ} → List A → ℕ → Result AssertError (List (List (Option A)))
get_combinations arr size = do
  guard (leb 1 size) not_initialized
  guard (leb 1 size) not_true
  index_combinations ← get_power_set_of_length (get_indices (length arr)) size
  ok (map (map (λ i. get_elem? arr i)) index_combinations)
