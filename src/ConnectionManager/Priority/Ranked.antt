-- ===== src/ConnectionManager/Priority/Ranked.antt =====
-- The order of the groups (MoneroConnectionManager.ts).
use mathlib.Core.List.{map-append}
use qwertycoin_ts.Common.{
  ℕ, ◌<◌, ◌≡◌, ◌≢◌, refl, sym, ◌∙◌, ◌⊎◌, true, false, ◌||◌, List, [], ◌∷◌, ◌++◌, arith, All,
  All-append, ◌==◌, leb, Bool-cases, inl, inr,
}
use qwertycoin_ts.ConnectionManager.{Manager}
use qwertycoin_ts.ConnectionManager.Priority.{
  Entry, group_by_priority, has_key, insert_entry, sort_entries, first_to_end, values,
  get_connections_in_ascending_priority,
}
use qwertycoin_ts.ConnectionManager.Priority.Groups.{
  with_priority, AreWhole, Covers, HasNoKey, HasDistinctKeys, groups-IsGrouping,
}

-- A priority is served before another if it is positive, and smaller or the other is 0.
abbrev pub Before : ℕ → ℕ → Type 0
Before p q = (0 < p) × ((p < q) ⊎ (q ≡ 0))

abbrev pub IsRanked : List Entry → Type 0
IsRanked [] = Unit
IsRanked (e ∷ es) = All (λ f. Before e.0 f.0) es × IsRanked es

abbrev IsAscending : List Entry → Type 0
IsAscending [] = Unit
IsAscending (e ∷ es) = All (λ f. e.0 < f.0) es × IsAscending es

module _ (P : Entry → Type 0) where
  All-insert_entry : (e : Entry) (es : List Entry) → P e → All P es → All P (insert_entry e es)
  unfolding insert_entry
  All-insert_entry e [] h k = (h, tt)
  All-insert_entry e (f ∷ fs) h k = elim (Bool-cases (leb e.0 f.0)) [
    | inl le ↦ rw le (h, k)
    | inr gt ↦ rw gt (k.0, All-insert_entry e fs h k.1)
  ]

  All-sort_entries : (es : List Entry) → All P es → All P (sort_entries es)
  unfolding sort_entries
  All-sort_entries [] h = tt
  All-sort_entries (e ∷ es) h = All-insert_entry e (sort_entries es) h.0 (All-sort_entries es h.1)

All-lt_trans : (a b : ℕ) (es : List Entry) → a < b → All (λ f. b < f.0) es → All (λ f. a < f.0) es
All-lt_trans a b [] h k = tt
All-lt_trans a b (e ∷ es) h k = (omega arith, All-lt_trans a b es h k.1)

insert_entry-IsAscending :
    (e : Entry) (es : List Entry)
    → HasNoKey e.0 es
    → IsAscending es
    → IsAscending (insert_entry e es)
unfolding insert_entry
insert_entry-IsAscending e [] n a = (tt, tt)
insert_entry-IsAscending e (f ∷ fs) n a = elim (Bool-cases (leb e.0 f.0)) [
  | inl le ↦ let lt : e.0 < f.0 = ground arith in rw le ((lt, All-lt_trans e.0 f.0 fs lt a.0), a)
  | inr gt ↦
      let lt : f.0 < e.0 = ground arith in
      rw gt (All-insert_entry (λ g. f.0 < g.0) e fs lt a.0, insert_entry-IsAscending e fs n.1 a.1)
]

sort_entries-IsAscending : (es : List Entry) → HasDistinctKeys es → IsAscending (sort_entries es)
unfolding sort_entries
sort_entries-IsAscending [] d = tt
sort_entries-IsAscending (e ∷ es) d =
    insert_entry-IsAscending e (sort_entries es) (All-sort_entries (λ f. f.0 ≢ e.0) es d.0)
      (sort_entries-IsAscending es d.1)

has_key-insert_entry :
    (p : ℕ) (e : Entry) (es : List Entry)
    → has_key p (insert_entry e es) ≡ ((e.0 == p) || has_key p es)
unfolding insert_entry
has_key-insert_entry p e [] = refl
has_key-insert_entry p e (f ∷ fs) = ground (arith, has_key-insert_entry p e fs)

has_key-sort_entries : (p : ℕ) (es : List Entry) → has_key p (sort_entries es) ≡ has_key p es
unfolding sort_entries
has_key-sort_entries p [] = refl
has_key-sort_entries p (e ∷ es) =
    ground (arith, has_key-insert_entry p e (sort_entries es), has_key-sort_entries p es)

has_key-append :
    (p : ℕ) (es fs : List Entry) → has_key p (es ++ fs) ≡ (has_key p es || has_key p fs)
has_key-append p [] fs = refl
has_key-append p (e ∷ es) fs = ground (arith, has_key-append p es fs)

-- With a positive first key, ascending entries are ranked; a key of 0 comes first.
IsRanked-of_IsAscending : (es : List Entry) → IsAscending es → All (λ e. 0 < e.0) es → IsRanked es
IsRanked-of_IsAscending [] a h = tt
IsRanked-of_IsAscending (e ∷ es) a h = (before e.0 es h.0 a.0, IsRanked-of_IsAscending es a.1 h.1)
  where
    before : (p : ℕ) (fs : List Entry) → 0 < p → All (λ f. p < f.0) fs → All (λ f. Before p f.0) fs
    before p [] h k = tt
    before p (f ∷ fs) h k = ((h, inl k.0), before p fs h k.1)

IsRanked-append_zero :
    (es : List Entry) (e : Entry)
    → e.0 ≡ 0
    → All (λ f. 0 < f.0) es
    → IsRanked es
    → IsRanked (es ++ e ∷ [])
IsRanked-append_zero [] e z h r = (tt, tt)
IsRanked-append_zero (f ∷ fs) e z h r = (
  All-append (λ g. Before f.0 g.0) fs (e ∷ []) r.0 ((h.0, inr z), tt),
  IsRanked-append_zero fs e z h.1 r.1,
)

positive_keys : (n : ℕ) (es : List Entry) → All (λ f. n < f.0) es → All (λ f. 0 < f.0) es
positive_keys n [] h = tt
positive_keys n (e ∷ es) h = (omega arith, positive_keys n es h.1)

positive_of_has_key : (es : List Entry) → has_key 0 es ≡ false → All (λ f. 0 < f.0) es
positive_of_has_key [] h = tt
positive_of_has_key (e ∷ es) h = (ground arith, positive_of_has_key es (ground arith))

not-has_key : (es : List Entry) → All (λ f. 0 < f.0) es → has_key 0 es ≡ false
not-has_key [] h = refl
not-has_key (e ∷ es) h = ground (arith, not-has_key es h.1)

zero_first :
    (e : Entry) (es : List Entry) → IsAscending (e ∷ es) → has_key 0 (e ∷ es) ≡ true → e.0 ≡ 0
zero_first e es a h = ground (arith, not-has_key es (positive_keys e.0 es a.0))

-- Groups of connections, as the values of entries that are whole, ranked by their keys and cover
-- the managed connections.
pub record AreRankedGroups (m : Manager) (groups : List (List ℕ)) : Type 0 where
  pub entries : List Entry
  pub listed : groups ≡ values entries
  pub whole : AreWhole m.heap m.connections entries
  pub ranked : IsRanked entries
  pub covers : Covers m.heap m.connections entries

module _ (m : Manager) where
  Covers-same :
      (refs : List ℕ) (es fs : List Entry)
      → ((p : ℕ) → has_key p fs ≡ has_key p es)
      → Covers m.heap refs es
      → Covers m.heap refs fs
  Covers-same [] es fs h c = tt
  Covers-same (r ∷ refs) es fs h c = (h (m.heap r).priority ∙ c.0, Covers-same refs es fs h c.1)

  -- The groups when the priority 0 is moved to the end.
  rotated :
      (es : List Entry)
      → AreWhole m.heap m.connections es
      → Covers m.heap m.connections es
      → IsAscending es
      → has_key 0 es ≡ true
      → AreRankedGroups m (first_to_end (values es))
  rotated [] w c a h = cc
  rotated (e ∷ es) w c a h = record {
    entries = es ++ e ∷ [];
    listed = sym (map-append (λ (f : Entry). f.1) es (e ∷ []));
    whole =
        All-append (λ f. f.1 ≡ with_priority m.heap f.0 m.connections) es (e ∷ []) w.1 (w.0, tt);
    ranked =
        let positive = positive_keys e.0 es a.0 in
        IsRanked-append_zero es e (zero_first e es a h) positive
          (IsRanked-of_IsAscending es a.1 positive);
    covers =
        Covers-same m.connections (e ∷ es) (es ++ e ∷ [])
          (λ p. ground (arith, has_key-append p es (e ∷ []))) c;
  }

-- The connections of a manager in ascending priority are groups that each hold all managed
-- connections of one priority in the order in which they are managed, with the priorities ascending
-- from 1 and 0 at the end, and every managed connection has its group.
pub ascending_priority-AreRankedGroups :
    (m : Manager) → AreRankedGroups m (get_connections_in_ascending_priority m)
unfolding get_connections_in_ascending_priority
ascending_priority-AreRankedGroups m =
    let es = group_by_priority m.heap [] m.connections in
    let g = groups-IsGrouping m.heap m.connections in
    let a = sort_entries-IsAscending es g.distinct in
    let w = All-sort_entries (λ f. f.1 ≡ with_priority m.heap f.0 m.connections) es g.whole in
    let c =
      Covers-same m m.connections es (sort_entries es) (λ p. has_key-sort_entries p es) g.covers in
    elim (Bool-cases (has_key 0 es)) [
      | inl has_zero ↦
          rw has_zero (rotated m (sort_entries es) w c a (has_key-sort_entries 0 es ∙ has_zero))
      | inr no_zero ↦ rw no_zero (record {
        entries = sort_entries es;
        listed = refl;
        whole = w;
        ranked =
            IsRanked-of_IsAscending (sort_entries es) a
              (positive_of_has_key (sort_entries es) (has_key-sort_entries 0 es ∙ no_zero));
        covers = c;
      })
    ]
