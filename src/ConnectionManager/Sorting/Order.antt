-- ===== src/ConnectionManager/Sorting/Order.antt =====
-- The order that `getConnections` of MoneroConnectionManager.ts promises.
use qwertycoin_ts.Common.{
  ℕ, ◌<◌, ◌≡◌, ◌≢◌, ◌⊎◌, inl, inr, refl, sym, Bool, true, false, List, [], ◌∷◌, Option, none, some,
  arith, ◌==◌, Text, same_num, same_num_iff, same_flag, same_flag_iff, ltb, Bool-cases,
  if◌then◌else◌,
}
use qwertycoin_ts.ConnectionManager.{Manager, uri_of}
use qwertycoin_ts.ConnectionManager.Sorting.{
  Sign, positive, negate, compare_priorities, compare_online, compare_connections, get_connections,
}
use qwertycoin_ts.ConnectionManager.Sorting.Sorted.{
  IsConsistent, IsUnswapped, count, get_connections-IsUnswapped,
}

-- Online connections stand first, those that were not checked next, and those offline last.
abbrev pub online_rank : Option Bool → ℕ
online_rank (some true) = 0
online_rank none = 1
online_rank (some false) = 2

-- Priority 1 is the highest, and 0 the lowest.
abbrev pub IsHigher : ℕ → ℕ → Type 0
IsHigher p q = (p ≢ 0) × ((q ≡ 0) ⊎ (p < q))

module _ (locale_compare : Option Text → Option Text → Sign) (m : Manager) where
  -- By priority, then by URI.
  abbrev pub IsNotLower : ℕ → ℕ → Type 0
  IsNotLower r s =
      IsHigher (m.heap r).priority (m.heap s).priority
      ⊎ (((m.heap r).priority ≡ (m.heap s).priority)
          × (locale_compare (uri_of m r) (uri_of m s) ≢ positive))

  -- The current connection, then by status, then by priority and URI.
  abbrev pub IsNotAfter : ℕ → ℕ → Type 0
  IsNotAfter r s =
      (m.current_connection ≡ some r)
      ⊎ ((m.current_connection ≢ some s)
          × ((online_rank (m.heap r).is_online < online_rank (m.heap s).is_online)
              ⊎ ((online_rank (m.heap r).is_online ≡ online_rank (m.heap s).is_online)
                  × IsNotLower r s)))

  abbrev pub IsOrdered : List ℕ → Type 0
  IsOrdered [] = Unit
  IsOrdered (r ∷ []) = Unit
  IsOrdered (r ∷ s ∷ refs) = IsNotAfter r s × IsOrdered (s ∷ refs)

compare_online-rank :
    (a b : Option Bool)
    → same_flag a b ≡ false
    → compare_online a b ≢ positive
    → online_rank a < online_rank b
unfolding compare_online
compare_online-rank (some true) (some true) e n = absurd (cc)
compare_online-rank (some true) none e n = omega arith
compare_online-rank (some true) (some false) e n = omega arith
compare_online-rank none (some true) e n = absurd (n refl)
compare_online-rank none none e n = absurd (cc)
compare_online-rank none (some false) e n = omega arith
compare_online-rank (some false) (some true) e n = absurd (n refl)
compare_online-rank (some false) none e n = absurd (n refl)
compare_online-rank (some false) (some false) e n = absurd (cc)

compare_priorities-IsHigher :
    (p q : ℕ) → (p == q) ≡ false → negate (compare_priorities p q) ≢ positive → IsHigher p q
unfolding compare_priorities
compare_priorities-IsHigher p q e n = elim (Bool-cases (p == 0)) [
  | inl f ↦ absurd (n (rw (e, f) refl))
  | inr f ↦ elim (Bool-cases (q == 0)) [
    | inl g ↦ ((λ z. ground arith), inl (ground arith))
    | inr g ↦ ((λ z. ground arith), inr (by_size (e, f, g) (Bool-cases (ltb q p))))
  ]
]
  where
    by_size :
        ((p == q) ≡ false) × ((p == 0) ≡ false) × ((q == 0) ≡ false)
        → (ltb q p ≡ true) ⊎ (ltb q p ≡ false)
        → p < q
    by_size (e, f, g) (inl more) = absurd (n (rw (e, f, g, more) refl))
    by_size (e, f, g) (inr less) = ground arith

module _ (locale_compare : Option Text → Option Text → Sign) (m : Manager) where
  equal_status-IsNotLower :
      (r s : ℕ)
      → (if (m.heap r).priority == (m.heap s).priority
          then locale_compare (uri_of m r) (uri_of m s)
          else negate (compare_priorities (m.heap r).priority (m.heap s).priority))
        ≢ positive
      → IsNotLower locale_compare m r s
  equal_status-IsNotLower r s n = elim (Bool-cases ((m.heap r).priority == (m.heap s).priority)) [
    | inl e ↦ inr (ground arith, λ p. n (rw e p))
    | inr e ↦
        inl
          (compare_priorities-IsHigher (m.heap r).priority (m.heap s).priority e (λ p. n (rw e p)))
  ]

  compare_connections-IsNotAfter :
      (r s : ℕ)
      → compare_connections locale_compare m r s ≢ positive
      → IsNotAfter locale_compare m r s
  unfolding compare_connections
  compare_connections-IsNotAfter r s n =
      elim (Bool-cases (same_num (some r) m.current_connection)) [
        | inl e ↦ inl (sym ((same_num_iff (some r) m.current_connection).0 e))
        | inr e ↦ elim (Bool-cases (same_num (some s) m.current_connection)) [
          | inl f ↦ absurd (n (rw (e, f) refl))
          | inr f ↦ inr (
            (λ c. absurd (cc ((same_num_iff (some s) m.current_connection).1 (sym c)))),
            elim (Bool-cases (same_flag (m.heap r).is_online (m.heap s).is_online)) [
              | inl g ↦
                  let equal = (same_flag_iff (m.heap r).is_online (m.heap s).is_online).0 g in
                  inr (rw equal refl, equal_status-IsNotLower r s (λ p. n (rw (e, f, g) p)))
              | inr g ↦ inl (
                  compare_online-rank (m.heap r).is_online (m.heap s).is_online g
                    (λ p. n (rw (e, f, g) p)))
            ],
          )
        ]
      ]

  IsUnswapped-IsOrdered :
      (refs : List ℕ) → IsUnswapped locale_compare m refs → IsOrdered locale_compare m refs
  IsUnswapped-IsOrdered [] u = tt
  IsUnswapped-IsOrdered (r ∷ []) u = tt
  IsUnswapped-IsOrdered (r ∷ s ∷ refs) u =
      (compare_connections-IsNotAfter r s u.0, IsUnswapped-IsOrdered (s ∷ refs) u.1)

-- If the comparison of texts is consistent, `getConnections` returns each managed connection as often
-- as it is managed, in the order that it promises: of two neighbours, the first is the current
-- connection, or the second is not and the first has the better status (online before not checked
-- before offline), or the same status and a higher priority (1 before 2 and so on, 0 last), or the
-- same of both and a URI that does not come after the other.
pub get_connections-IsOrdered :
    (locale_compare : Option Text → Option Text → Sign) (m : Manager)
    → (consistent : IsConsistent locale_compare)
    → IsOrdered locale_compare m (get_connections locale_compare m)
      × ((x : ℕ) → count x (get_connections locale_compare m) ≡ count x m.connections)
get_connections-IsOrdered locale_compare m consistent =
    let unswapped = get_connections-IsUnswapped locale_compare m consistent in
    (
      IsUnswapped-IsOrdered locale_compare m (get_connections locale_compare m) unswapped.0,
      unswapped.1,
    )
