-- ===== src/GenUtils/PowerSet/Choose.antt =====
-- The subsets of a given size, as a textbook recursion, and what `getPowerSet` of GenUtils.ts
-- collects.
use mathlib.Core.List.{append_assoc, map-append}
use qwertycoin_ts.Common.{
  ℕ, zero, suc, ◌<◌, ◌≡◌, ◌≢◌, refl, ap, ◌∙◌, List, [], ◌∷◌, ◌++◌, map, arith, length, All,
  All-append,
}
use qwertycoin_ts.GenUtils.PowerSet.{fn, of_length}

module _ {ℓ} {A : Type ℓ} where
  -- The ordered subsets of k elements.
  unfoldable pub choose : ℕ → List A → List (List A)
  choose zero xs = [] ∷ []
  choose (suc k) [] = []
  choose (suc k) (x ∷ xs) = map (◌∷◌ x) (choose k xs) ++ choose (suc k) xs

  map-map_append :
      (got : List A) (x : A) (sets : List (List A))
      → map (◌++◌ (got ++ x ∷ [])) sets ≡ map (◌++◌ got) (map (◌∷◌ x) sets)
  map-map_append got x [] = refl
  map-map_append got x (s ∷ sets) =
      ground (arith, map-map_append got x sets, append_assoc got (x ∷ []) s)

  fn-zero : (src got : List A) (x : A) → fn 0 src (got ++ x ∷ []) ≡ (got ++ x ∷ []) ∷ []
  unfolding fn
  fn-zero src [] x = refl
  fn-zero src (g ∷ got) x = refl

  -- `fn` extends `got` by every subset of the size, but adds no empty set.
  fn-suc-choose :
      (n : ℕ) (src got : List A) → fn (suc n) src got ≡ map (◌++◌ got) (choose (suc n) src)
  unfolding fn choose
  fn-suc-choose n [] got = refl
  fn-suc-choose zero (x ∷ src) got = rw (fn-zero src got x, fn-suc-choose zero src got)
  fn-suc-choose (suc n) (x ∷ src) got = rw (
    fn-suc-choose n src (got ++ x ∷ []),
    fn-suc-choose (suc n) src got,
    map-append,
    map-map_append got x (choose (suc n) src),
  )

  map-nil_append : (sets : List (List A)) → map (◌++◌ []) sets ≡ sets
  map-nil_append [] = refl
  map-nil_append (s ∷ sets) = ap (◌∷◌ s) (map-nil_append sets)

  pub fn-choose : (n : ℕ) (src : List A) → fn (suc n) src [] ≡ choose (suc n) src
  fn-choose n src = fn-suc-choose n src [] ∙ map-nil_append (choose (suc n) src)

  All-length-map :
      (k : ℕ) (x : A) (sets : List (List A))
      → All (λ s. length s ≡ k) sets
      → All (λ s. length s ≡ suc k) (map (◌∷◌ x) sets)
  All-length-map k x [] h = tt
  All-length-map k x (s ∷ sets) h = (ap suc h.0, All-length-map k x sets h.1)

  -- Every chosen subset has the size.
  pub choose-length : (k : ℕ) (xs : List A) → All (λ s. length s ≡ k) (choose k xs)
  unfolding choose
  choose-length zero xs = (refl, tt)
  choose-length (suc k) [] = tt
  choose-length (suc k) (x ∷ xs) =
      All-append (λ s. length s ≡ suc k) (map (◌∷◌ x) (choose k xs)) (choose (suc k) xs)
        (All-length-map k x (choose k xs) (choose-length k xs)) (choose-length (suc k) xs)

  pub of_length-append :
      (size : ℕ) (xs ys : List (List A))
      → of_length size (xs ++ ys) ≡ of_length size xs ++ of_length size ys
  unfolding of_length
  of_length-append size [] ys = refl
  of_length-append size (x ∷ xs) ys = ground (arith, of_length-append size xs ys)

  pub of_length-All :
      (size : ℕ) (sets : List (List A))
      → All (λ s. length s ≡ size) sets
      → of_length size sets ≡ sets
  unfolding of_length
  of_length-All size [] h = refl
  of_length-All size (s ∷ sets) h = ground (arith, of_length-All size sets h.1)

  pub of_length_none :
      (size k : ℕ) (sets : List (List A))
      → All (λ s. length s ≡ k) sets
      → k ≢ size
      → of_length size sets ≡ []
  unfolding of_length
  of_length_none size k [] h n = refl
  of_length_none size k (s ∷ sets) h n = ground (arith, of_length_none size k sets h.1)

  pub choose_above : (k : ℕ) (xs : List A) → length xs < k → choose k xs ≡ []
  unfolding choose
  choose_above zero xs h = absurd (omega arith)
  choose_above (suc k) [] h = refl
  choose_above (suc k) (x ∷ xs) h =
      rw (choose_above k xs (omega arith), choose_above (suc k) xs (omega arith))

  pub choose_whole : (xs : List A) → choose (length xs) xs ≡ xs ∷ []
  unfolding choose
  choose_whole [] = refl
  choose_whole (x ∷ xs) = rw (choose_whole xs, choose_above (suc (length xs)) xs (omega arith))
