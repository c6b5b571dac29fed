-- ===== src/GenUtils/Arrays.antt =====
-- `remove` of GenUtils.ts. Elements are compared by `===`, so
-- an element is a number: the identity of an object, or a primitive value.
use mathlib.Core.List.{reverse_aux, reverse-reverse, reverse-append, reverse_aux-eq, append_assoc}
use qwertycoin_ts.Common.{
  ℕ, ◌≡◌, refl, ◌∙◌, ◌≢◌, Bool, true, false, ◌||◌, List, [], ◌∷◌, ◌++◌, reverse, arith, includes,
  ◌==◌, if◌then◌else◌,
}

-- The loop of `remove`, from the last element down: the elements before the index, last first, and
-- those behind it. A hit steps the index once more, so it passes over the element in front.
unfoldable pub remove_from : ℕ → List ℕ → List ℕ → Bool → List ℕ × Bool
remove_from val [] later found = (later, found)
remove_from val (x ∷ []) later found = if x == val then (later, true) else (x ∷ later, found)
remove_from val (x ∷ y ∷ before) later found =
    let hit = remove_from val before (y ∷ later) true in
    let miss = remove_from val (y ∷ before) (x ∷ later) found in if x == val then hit else miss

unfoldable pub remove : List ℕ → ℕ → List ℕ × Bool
unfolding remove_from
remove arr val = remove_from val (reverse arr) [] false

-- What the comment promises: every instance is taken out.
abbrev pub without : ℕ → List ℕ → List ℕ
without val [] = []
without val (x ∷ xs) = let rest = without val xs in if x == val then rest else x ∷ rest

-- No two instances of the value are neighbours.
abbrev pub IsSpread : ℕ → List ℕ → Type 0
IsSpread val [] = Unit
IsSpread val (x ∷ []) = Unit
IsSpread val (x ∷ y ∷ xs) = ((x ≡ val) → (y ≢ val)) × IsSpread val (y ∷ xs)

IsSpread-tail : (v x : ℕ) (xs : List ℕ) → IsSpread v (x ∷ xs) → IsSpread v xs
IsSpread-tail v x [] h = tt
IsSpread-tail v x (y ∷ xs) h = h.1

-- The heads of two lists are not both the value.
abbrev Apart : ℕ → List ℕ → List ℕ → Type 0
Apart v (x ∷ xs) (y ∷ ys) = (x ≡ v) → (y ≢ v)
Apart v _ _ = Unit

IsSpread-reverse_aux :
    (v : ℕ) (xs ys : List ℕ)
    → IsSpread v xs
    → IsSpread v ys
    → Apart v xs ys
    → IsSpread v (reverse_aux xs ys)
IsSpread-reverse_aux v [] ys h k a = k
IsSpread-reverse_aux v (x ∷ []) [] h k a = tt
IsSpread-reverse_aux v (x ∷ []) (y ∷ ys) h k a = (a, k)
IsSpread-reverse_aux v (x ∷ z ∷ xs) [] h k a =
    IsSpread-reverse_aux v (z ∷ xs) (x ∷ []) h.1 tt (λ p q. h.0 q p)
IsSpread-reverse_aux v (x ∷ z ∷ xs) (y ∷ ys) h k a =
    IsSpread-reverse_aux v (z ∷ xs) (x ∷ y ∷ ys) h.1 (a, k) (λ p q. h.0 q p)

without-reverse_aux :
    (v : ℕ) (xs ys : List ℕ)
    → without v (reverse_aux xs ys) ≡ reverse_aux (without v xs) (without v ys)
without-reverse_aux v [] ys = refl
without-reverse_aux v (x ∷ xs) ys = ground (arith, without-reverse_aux v xs (x ∷ ys))

includes-reverse_aux :
    (v : ℕ) (xs ys : List ℕ) → includes (reverse_aux xs ys) v ≡ (includes xs v || includes ys v)
includes-reverse_aux v [] ys = refl
includes-reverse_aux v (x ∷ xs) ys = ground (arith, includes-reverse_aux v xs (x ∷ ys))

remove_from_lem :
    (v : ℕ) (xs later : List ℕ) (found : Bool)
    → IsSpread v xs
    → remove_from v xs later found ≡ (reverse_aux (without v xs) later, found || includes xs v)
unfolding remove_from
remove_from_lem v [] later found h = ground arith
remove_from_lem v (x ∷ []) later found h = ground arith
remove_from_lem v (x ∷ y ∷ xs) later found h = ground (
  arith,
  remove_from_lem v xs (y ∷ later) true (IsSpread-tail v y xs h.1),
  remove_from_lem v (y ∷ xs) (x ∷ later) found h.1,
)

Apart-nil : (v : ℕ) (xs : List ℕ) → Apart v xs []
Apart-nil v [] = tt
Apart-nil v (x ∷ xs) = tt

-- `remove` takes every instance of a value out and reports whether there was one, if no two
-- instances of the value are neighbours.
pub remove-without :
    (arr : List ℕ) (val : ℕ)
    → IsSpread val arr
    → remove arr val ≡ (without val arr, includes arr val)
unfolding remove
remove-without arr val h =
    remove_from_lem val (reverse arr) [] false
      (IsSpread-reverse_aux val arr [] h tt (Apart-nil val arr))
    ∙ ground (
      arith,
      includes-reverse_aux val arr [],
      without-reverse_aux val arr [],
      reverse-reverse (without val arr),
    )

-- What was passed over stays.
remove_from-includes_later :
    (v : ℕ) (xs later : List ℕ) (found : Bool)
    → includes later v ≡ true
    → includes (remove_from v xs later found).0 v ≡ true
unfolding remove_from
remove_from-includes_later v [] later found h = h
remove_from-includes_later v (x ∷ []) later found h = ground arith
remove_from-includes_later v (x ∷ y ∷ xs) later found h = ground (
  arith,
  remove_from-includes_later v xs (y ∷ later) true,
  remove_from-includes_later v (y ∷ xs) (x ∷ later) found,
)

remove_from_adjacent :
    (v : ℕ) (zs before later : List ℕ) (found : Bool)
    → includes zs v ≡ false
    → includes (remove_from v (zs ++ v ∷ v ∷ before) later found).0 v ≡ true
unfolding remove_from
remove_from_adjacent v [] before later found h =
    ground (arith, remove_from-includes_later v before (v ∷ later) true)
remove_from_adjacent v (z ∷ []) before later found h =
    ground (arith, remove_from_adjacent v [] before (z ∷ later) found)
remove_from_adjacent v (z ∷ w ∷ zs) before later found h =
    ground (arith, remove_from_adjacent v (w ∷ zs) before (z ∷ later) found)

-- Of two neighbouring instances of a value with no instance behind them, one is left.
pub remove_leaves_neighbour :
    (before later : List ℕ) (val : ℕ)
    → includes later val ≡ false
    → includes (remove (before ++ val ∷ val ∷ later) val).0 val ≡ true
unfolding remove
remove_leaves_neighbour before later val h =
    rw
      (
        reverse-append before (val ∷ val ∷ later),
        reverse_aux-eq later (val ∷ val ∷ []),
        append_assoc,
      )
      (remove_from_adjacent val (reverse later) (reverse before) [] false
        (ground (arith, includes-reverse_aux val later [])))
