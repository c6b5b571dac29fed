-- ===== src/GenUtils/PowerSet/Combinations.antt =====
-- `getPowerSetOfLength` and `getCombinations` of GenUtils.ts against the textbook recursion.
use mathlib.Core.List.{append-nil, map-append}
use qwertycoin_ts.Common.{
  ℕ, zero, suc, ◌+◌, ◌≤◌, ◌≡◌, refl, sym, ap, ◌∙◌, ◌&&◌, List, [], ◌∷◌, map, arith, length, leb,
  ltb, ◌==◌, ==_refl, if◌then◌else◌, Bool-cases, inl, inr, Option, some, get_elem?,
}
use qwertycoin_ts.Common.Result.{ok}
use qwertycoin_ts.GenUtils.PowerSet.{
  fn, sizes_from, of_length, get_power_set, get_power_set_of_length, get_combinations, get_indices,
  indices_from,
}
use qwertycoin_ts.GenUtils.PowerSet.Choose.{
  choose, fn-choose, choose-length, of_length-append, of_length-All, of_length_none, choose_above,
  choose_whole,
}

module _ {A : Type 0} where
  of_length-fn :
      (size i : ℕ) (arr : List A)
      → 1 ≤ size
      → of_length size (fn i arr []) ≡ (if i == size then choose size arr else [])
  unfolding fn of_length
  of_length-fn size zero arr h = ground arith
  of_length-fn size (suc i) arr h = elim (Bool-cases (suc i == size)) [
    | inl same ↦
        let e : suc i ≡ size = ground arith in
        rw (← e, fn-choose i arr, ==_refl) (of_length-All (suc i) _ (choose-length (suc i) arr))
    | inr other ↦
        rw (other, fn-choose i arr)
          (of_length_none size (suc i) _ (choose-length (suc i) arr) (ground arith))
  ]

  of_length-sizes_from :
      (size rounds i : ℕ) (arr : List A)
      → 1 ≤ size
      → of_length size (sizes_from rounds i arr)
        ≡ (if leb i size && ltb size (i + rounds) then choose size arr else [])
  unfolding sizes_from of_length
  of_length-sizes_from size zero i arr h = ground arith
  of_length-sizes_from size (suc rounds) i arr h = ground (
    arith,
    of_length-append size (fn i arr []) (sizes_from rounds (suc i) arr),
    of_length-fn size i arr h,
    of_length-sizes_from size rounds (suc i) arr h,
    append-nil (choose size arr),
  )

  of_length-get_power_set :
      (size : ℕ) (arr : List A) → 1 ≤ size → of_length size (get_power_set arr) ≡ choose size arr
  unfolding get_power_set of_length
  of_length-get_power_set size arr h = ground (
    arith,
    of_length-append size (sizes_from (length arr) 0 arr) (arr ∷ []),
    of_length-sizes_from size (length arr) 0 arr h,
    append-nil (choose size arr),
    choose_above size arr,
    choose_whole arr,
  )

  -- For a size of at least 1, the sets of that size in the power set are the subsets of that size
  -- of the textbook recursion, in its order and each once.
  pub get_power_set_of_length-choose :
      (arr : List A) (size : ℕ) → 1 ≤ size → get_power_set_of_length arr size ≡ ok (choose size arr)
  unfolding get_power_set_of_length
  get_power_set_of_length-choose arr size h = ground (arith, of_length-get_power_set size arr h)

map-choose {ℓ κ} :
    {A : Type ℓ} {B : Type κ} (f : A → B) (k : ℕ) (xs : List A)
    → map (map f) (choose k xs) ≡ choose k (map f xs)
unfolding choose
map-choose f zero xs = refl
map-choose f (suc k) [] = refl
map-choose f (suc k) (x ∷ xs) =
    rw (map-append, map-choose f (suc k) xs, ← map-choose f k xs, swap (choose k xs))
  where
    swap :
        (sets : List (List _)) → map (map f) (map (◌∷◌ x) sets) ≡ map (◌∷◌ (f x)) (map (map f) sets)
    swap [] = refl
    swap (s ∷ sets) = ap (◌∷◌ (f x ∷ map f s)) (swap sets)

-- Reading an array at its indices, from the front, gives its elements.
map-get_elem?_indices :
    {A : Type 0} (f : ℕ → Option A) (xs : List A) (i : ℕ)
    → ((j : ℕ) → f (i + j) ≡ get_elem? xs j)
    → map f (indices_from (length xs) i) ≡ map some xs
unfolding indices_from
map-get_elem?_indices f [] i h = refl
map-get_elem?_indices f (x ∷ xs) i h =
    rw
      (map-get_elem?_indices f xs (suc i)
        (λ j. ap f (let e : suc i + j ≡ i + suc j = omega arith in e) ∙ h (suc j)))
      (ap (λ (o : Option _). o ∷ map some xs) (ap f (let e : i ≡ i + 0 = omega arith in e) ∙ h 0))

choose-map-some :
    {A : Type 0} (arr : List A) (size : ℕ)
    → map (map (get_elem? arr)) (choose size (get_indices (length arr)))
      ≡ map (map some) (choose size arr)
unfolding get_indices
choose-map-some arr size =
    map-choose (get_elem? arr) size (get_indices (length arr))
    ∙ ap (choose size) (
        map-get_elem?_indices (get_elem? arr) arr 0
          (λ j. ap (get_elem? arr) (let e : 0 + j ≡ j = omega arith in e)))
    ∙ sym (map-choose some size arr)

-- `getCombinations` with a size of at least 1 returns the ordered subsets of that size, and no
-- element of a combination is undefined.
pub get_combinations-choose :
    {A : Type 0} (arr : List A) (size : ℕ)
    → 1 ≤ size
    → get_combinations arr size ≡ ok (map (map some) (choose size arr))
unfolding get_combinations
get_combinations-choose arr size h = ground (
  arith,
  get_power_set_of_length-choose (get_indices (length arr)) size h,
  choose-map-some arr size,
)
