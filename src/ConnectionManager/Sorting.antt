-- ===== src/ConnectionManager/Sorting.antt =====
-- `getConnections`, `compareConnections` and `comparePriorities` of MoneroConnectionManager.ts. A
-- comparison gives the sign of its number. `localeCompare` is the parameter `locale_compare`; a URI
-- that is undefined, on which it throws, is left to it.
pub mod Sorted
pub mod Order
use qwertycoin_ts.Common.{
  ℕ, Bool, true, List, [], ◌∷◌, Option, none, some, ltb, ◌==◌, if◌then◌else◌, same_num, same_flag,
  Text,
}
use qwertycoin_ts.ConnectionManager.{Manager, uri_of}

pub data Sign : Type 0 where
  negative same positive : Sign

abbrev pub negate : Sign → Sign
negate negative = positive
negate same = same
negate positive = negative

unfoldable pub compare_priorities : ℕ → ℕ → Sign
compare_priorities p q =
    if p == q
    then same
    else if p == 0
    then negative
    else if q == 0
    then positive
    else if ltb q p
    then negative
    else positive

-- The order of two different states: online, undefined, offline.
unfoldable pub compare_online : Option Bool → Option Bool → Sign
compare_online (some true) b = negative
compare_online a (some true) = positive
compare_online none b = negative
compare_online a b = positive

module _ (locale_compare : Option Text → Option Text → Sign) where
  unfoldable pub compare_connections : Manager → ℕ → ℕ → Sign
  unfolding compare_priorities compare_online
  compare_connections m r s =
      if same_num (some r) m.current_connection
      then negative
      else if same_num (some s) m.current_connection
      then positive
      else if same_flag (m.heap r).is_online (m.heap s).is_online
      then (if (m.heap r).priority == (m.heap s).priority
          then locale_compare (uri_of m r) (uri_of m s)
          else negate (compare_priorities (m.heap r).priority (m.heap s).priority))
      else compare_online (m.heap r).is_online (m.heap s).is_online

  -- A stable sort.
  unfoldable pub insert_connection : Manager → ℕ → List ℕ → List ℕ
  insert_connection m r [] = r ∷ []
  insert_connection m r (s ∷ refs) =
      let rest = insert_connection m r refs in
      elim (compare_connections m r s) [ positive ↦ s ∷ rest | _ ↦ r ∷ s ∷ refs ]

  unfoldable pub sort_connections : Manager → List ℕ → List ℕ
  unfolding insert_connection compare_connections
  sort_connections m [] = []
  sort_connections m (r ∷ refs) = insert_connection m r (sort_connections m refs)

  unfoldable pub get_connections : Manager → List ℕ
  unfolding sort_connections
  get_connections m = sort_connections m m.connections
