-- ===== src/ConnectionManager/Sorting/Sorted.antt =====
-- The sorted connections of a manager (MoneroConnectionManager.ts).
use qwertycoin_ts.Common.{
  ℕ, ◌+◌, ◌≡◌, ◌≢◌, refl, ap, ◌∙◌, subst, Bool, true, false, List, [], ◌∷◌, Option, none, some,
  arith, ◌==◌, Text, same_num, same_flag, Bool-cases, inl, inr, if◌then◌else◌,
}
use qwertycoin_ts.ConnectionManager.{Manager, uri_of}
use qwertycoin_ts.ConnectionManager.Sorting.{
  Sign, negative, same, positive, negate, compare_priorities, compare_online, compare_connections,
  insert_connection, sort_connections, get_connections,
}

-- How often a connection is in a list.
abbrev one : ℕ → ℕ → ℕ
one x r = if r == x then 1 else 0

abbrev pub count : ℕ → List ℕ → ℕ
count x [] = 0
count x (r ∷ refs) = one x r + count x refs

-- Two comparisons that do not both ask for a swap.
abbrev pub Agrees : Sign → Sign → Type 0
Agrees positive positive = ⊥
Agrees _ _ = Unit

-- The comparison of texts is consistent.
abbrev pub IsConsistent : (Option Text → Option Text → Sign) → Type 0
IsConsistent locale_compare = (a b : Option Text) → Agrees (locale_compare a b) (locale_compare b a)

compare_priorities-Agrees :
    (p q : ℕ)
    → (p == q) ≡ false
    → Agrees (negate (compare_priorities p q)) (negate (compare_priorities q p))
unfolding compare_priorities
compare_priorities-Agrees p q e = elim (Bool-cases (q == p)) [
  | inl f ↦ ground arith
  | inr f ↦ rw (e, f) (ground arith)
]

compare_online-Agrees :
    (a b : Option Bool) → same_flag a b ≡ false → Agrees (compare_online a b) (compare_online b a)
unfolding compare_online
compare_online-Agrees (some true) b e = tt
compare_online-Agrees none none e = ground arith
compare_online-Agrees none (some true) e = tt
compare_online-Agrees none (some false) e = tt
compare_online-Agrees (some false) none e = tt
compare_online-Agrees (some false) (some true) e = tt
compare_online-Agrees (some false) (some false) e = ground arith

Agrees-negative : (s : Sign) → Agrees s negative
Agrees-negative negative = tt
Agrees-negative same = tt
Agrees-negative positive = tt

same_flag_sym : (a b : Option Bool) → same_flag a b ≡ same_flag b a
same_flag_sym none none = refl
same_flag_sym none (some true) = refl
same_flag_sym none (some false) = refl
same_flag_sym (some true) none = refl
same_flag_sym (some false) none = refl
same_flag_sym (some true) (some true) = refl
same_flag_sym (some true) (some false) = refl
same_flag_sym (some false) (some true) = refl
same_flag_sym (some false) (some false) = refl

-- No comparison of neighbours asks for a swap.
abbrev pub IsUnswapped : (Option Text → Option Text → Sign) → Manager → List ℕ → Type 0
IsUnswapped locale_compare m [] = Unit
IsUnswapped locale_compare m (r ∷ []) = Unit
IsUnswapped locale_compare m (r ∷ s ∷ refs) =
    (compare_connections locale_compare m r s ≢ positive) × IsUnswapped locale_compare m (s ∷ refs)

module _ (locale_compare : Option Text → Option Text → Sign)
    (consistent : IsConsistent locale_compare) (m : Manager) where
  -- Two connections of the same status.
  equal_status :
      (r s : ℕ)
      → Agrees
          (if (m.heap r).priority == (m.heap s).priority
            then locale_compare (uri_of m r) (uri_of m s)
            else negate (compare_priorities (m.heap r).priority (m.heap s).priority))
          (if (m.heap s).priority == (m.heap r).priority
            then locale_compare (uri_of m s) (uri_of m r)
            else negate (compare_priorities (m.heap s).priority (m.heap r).priority))
  equal_status r s = elim (Bool-cases ((m.heap r).priority == (m.heap s).priority)) [
    | inl e ↦
        let f : ((m.heap s).priority == (m.heap r).priority) ≡ true = ground arith in
        rw (e, f) (consistent (uri_of m r) (uri_of m s))
    | inr e ↦
        let f : ((m.heap s).priority == (m.heap r).priority) ≡ false = ground arith in
        rw (e, f) (compare_priorities-Agrees (m.heap r).priority (m.heap s).priority e)
  ]

  compare_connections-Agrees :
      (r s : ℕ)
      → Agrees (compare_connections locale_compare m r s) (compare_connections locale_compare m s r)
  unfolding compare_connections
  compare_connections-Agrees r s = elim (Bool-cases (same_num (some r) m.current_connection)) [
    | inl e ↦ rw e tt
    | inr e ↦ elim (Bool-cases (same_num (some s) m.current_connection)) [
      | inl f ↦ rw (e, f) (Agrees-negative positive)
      | inr f ↦ elim (Bool-cases (same_flag (m.heap r).is_online (m.heap s).is_online)) [
        | inl g ↦
            let h : same_flag (m.heap s).is_online (m.heap r).is_online ≡ true =
              same_flag_sym (m.heap s).is_online (m.heap r).is_online ∙ g in
            rw (e, f, g, h) (equal_status r s)
        | inr g ↦
            let h : same_flag (m.heap s).is_online (m.heap r).is_online ≡ false =
              same_flag_sym (m.heap s).is_online (m.heap r).is_online ∙ g in
            rw (e, f, g, h) (compare_online-Agrees (m.heap r).is_online (m.heap s).is_online g)
      ]
    ]
  ]

  swapped :
      (r s : ℕ)
      → compare_connections locale_compare m r s ≡ positive
      → compare_connections locale_compare m s r ≢ positive
  swapped r s e f =
      let a : Agrees positive (compare_connections locale_compare m s r) =
        subst (λ x. Agrees x (compare_connections locale_compare m s r)) e
          (compare_connections-Agrees r s) in
      subst (Agrees positive) f a

  -- An insertion behind the head, or before it.
  -- Behind a head that may stand before the inserted connection.
  insert_behind :
      (s r : ℕ) (refs : List ℕ)
      → compare_connections locale_compare m s r ≢ positive
      → IsUnswapped locale_compare m (s ∷ refs)
      → IsUnswapped locale_compare m (s ∷ insert_connection locale_compare m r refs)
  unfolding insert_connection
  insert_behind s r [] n o = (n, tt)
  insert_behind s r (t ∷ refs) n o =
      behind (compare_connections locale_compare m r t) refl (λ x. insert_behind t r refs x o.1)
    where
      behind :
          (sign : Sign)
          → compare_connections locale_compare m r t ≡ sign
          → (compare_connections locale_compare m t r ≢ positive
              → IsUnswapped locale_compare m (t ∷ insert_connection locale_compare m r refs))
          → IsUnswapped locale_compare m (
              s ∷ elim sign [
                | positive ↦ t ∷ insert_connection locale_compare m r refs
                | _ ↦ r ∷ t ∷ refs
              ])
      behind negative e later = (n, (λ f. ground arith, o.1))
      behind same e later = (n, (λ f. ground arith, o.1))
      behind positive e later = (o.0, later (swapped r t e))

  insert_connection-IsUnswapped :
      (r : ℕ) (refs : List ℕ)
      → IsUnswapped locale_compare m refs
      → IsUnswapped locale_compare m (insert_connection locale_compare m r refs)
  unfolding insert_connection
  insert_connection-IsUnswapped r [] o = tt
  insert_connection-IsUnswapped r (s ∷ refs) o =
      inserted (compare_connections locale_compare m r s) refl
    where
      inserted :
          (sign : Sign)
          → compare_connections locale_compare m r s ≡ sign
          → IsUnswapped locale_compare m (elim sign [
            | positive ↦ s ∷ insert_connection locale_compare m r refs
            | _ ↦ r ∷ s ∷ refs
          ])
      inserted negative e = ((λ f. ground arith), o)
      inserted same e = ((λ f. ground arith), o)
      inserted positive e = insert_behind s r refs (swapped r s e) o

  sort_connections-IsUnswapped :
      (refs : List ℕ) → IsUnswapped locale_compare m (sort_connections locale_compare m refs)
  unfolding sort_connections
  sort_connections-IsUnswapped [] = tt
  sort_connections-IsUnswapped (r ∷ refs) =
      insert_connection-IsUnswapped r (sort_connections locale_compare m refs)
        (sort_connections-IsUnswapped refs)

  insert_connection-count :
      (x r : ℕ) (refs : List ℕ)
      → count x (insert_connection locale_compare m r refs) ≡ count x (r ∷ refs)
  unfolding insert_connection
  insert_connection-count x r [] = refl
  insert_connection-count x r (s ∷ refs) =
      counted (compare_connections locale_compare m r s) (insert_connection-count x r refs)
    where
      counted :
          (sign : Sign)
          → count x (insert_connection locale_compare m r refs) ≡ count x (r ∷ refs)
          → count x (elim sign [
            | positive ↦ s ∷ insert_connection locale_compare m r refs
            | _ ↦ r ∷ s ∷ refs
          ])
            ≡ count x (r ∷ s ∷ refs)
      counted negative e = refl
      counted same e = refl
      counted positive e = omega (arith, e)

  sort_connections-count :
      (x : ℕ) (refs : List ℕ) → count x (sort_connections locale_compare m refs) ≡ count x refs
  unfolding sort_connections
  sort_connections-count x [] = refl
  sort_connections-count x (r ∷ refs) =
      insert_connection-count x r (sort_connections locale_compare m refs)
      ∙ ap (λ n. one x r + n) (sort_connections-count x refs)

-- No neighbours of the sorted connections are to be swapped, and each is there as often as before.
pub get_connections-IsUnswapped :
    (locale_compare : Option Text → Option Text → Sign) (m : Manager)
    → (consistent : IsConsistent locale_compare)
    → IsUnswapped locale_compare m (get_connections locale_compare m)
      × ((x : ℕ) → count x (get_connections locale_compare m) ≡ count x m.connections)
unfolding get_connections
get_connections-IsUnswapped locale_compare m consistent = (
  sort_connections-IsUnswapped locale_compare consistent m m.connections,
  λ x. sort_connections-count locale_compare consistent m x m.connections,
)
