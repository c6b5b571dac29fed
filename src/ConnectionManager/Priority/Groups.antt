-- ===== src/ConnectionManager/Priority/Groups.antt =====
-- The groups of connections by priority (MoneroConnectionManager.ts).
use qwertycoin_ts.Common.{
  ℕ, ◌≡◌, ◌≢◌, refl, true, false, ◌||◌, List, [], ◌∷◌, ◌++◌, arith, All, All-append, ◌==◌,
  Bool-cases, inl, inr, subst, if◌then◌else◌,
}
use mathlib.Core.List.{append-nil, append_assoc}
use qwertycoin_ts.RpcConnection.{RpcConnection}
use qwertycoin_ts.ConnectionManager.Priority.{Entry, add_to_group, group_by_priority, has_key}

module _ (heap : ℕ → RpcConnection) where
  -- The connections of a priority, in their order.
  abbrev pub with_priority : ℕ → List ℕ → List ℕ
  with_priority p [] = []
  with_priority p (r ∷ refs) =
      let rest = with_priority p refs in if (heap r).priority == p then r ∷ rest else rest

  -- Every entry holds all connections of its priority.
  abbrev pub AreWhole : List ℕ → List Entry → Type 0
  AreWhole refs es = All (λ e. e.1 ≡ with_priority e.0 refs) es

  -- Every connection's priority has an entry.
  abbrev pub Covers : List ℕ → List Entry → Type 0
  Covers refs es = All (λ r. has_key (heap r).priority es ≡ true) refs

abbrev pub HasNoKey : ℕ → List Entry → Type 0
HasNoKey p es = All (λ e. e.0 ≢ p) es

abbrev pub HasDistinctKeys : List Entry → Type 0
HasDistinctKeys [] = Unit
HasDistinctKeys (e ∷ es) = HasNoKey e.0 es × HasDistinctKeys es

module _ (heap : ℕ → RpcConnection) where
  with_priority-append :
      (p : ℕ) (refs : List ℕ) (r : ℕ)
      → with_priority heap p (refs ++ r ∷ [])
        ≡ with_priority heap p refs ++ (if (heap r).priority == p then r ∷ [] else [])
  with_priority-append p [] r = refl
  with_priority-append p (x ∷ refs) r = ground (arith, with_priority-append p refs r)

  with_priority_uncovered :
      (p : ℕ) (refs : List ℕ) (es : List Entry)
      → Covers heap refs es
      → has_key p es ≡ false
      → with_priority heap p refs ≡ []
  with_priority_uncovered p [] es c h = refl
  with_priority_uncovered p (r ∷ refs) es c h =
      ground (arith, with_priority_uncovered p refs es c.1 h)

  -- Entries of other priorities keep their connections.
  AreWhole-other :
      (refs : List ℕ) (r : ℕ) (es : List Entry)
      → HasNoKey (heap r).priority es
      → AreWhole heap refs es
      → AreWhole heap (refs ++ r ∷ []) es
  AreWhole-other refs r [] n w = tt
  AreWhole-other refs r ((q, rs) ∷ es) n w = ground (
    arith,
    with_priority-append q refs r,
    append-nil (with_priority heap q refs),
    AreWhole-other refs r es n.1 w.1,
  )

  add_to_group-AreWhole :
      (refs : List ℕ) (r : ℕ) (es : List Entry)
      → HasDistinctKeys es
      → AreWhole heap refs es
      → (has_key (heap r).priority es ≡ false → with_priority heap (heap r).priority refs ≡ [])
      → AreWhole heap (refs ++ r ∷ []) (add_to_group (heap r).priority r es)
  unfolding add_to_group
  add_to_group-AreWhole refs r [] d w h =
      ground (arith, with_priority-append (heap r).priority refs r, h refl)
  add_to_group-AreWhole refs r ((q, rs) ∷ es) d w h = elim (Bool-cases (q == (heap r).priority)) [
    | inl here ↦
        let key : q ≡ (heap r).priority = ground arith in
        ground (
          arith,
          with_priority-append q refs r,
          AreWhole-other refs r es (subst (λ p. HasNoKey p es) key d.0) w.1,
        )
    | inr other ↦
        let rest = add_to_group-AreWhole refs r es d.1 w.1 (λ e. h (rw (other, e))) in
        ground (arith, rest, with_priority-append q refs r, append-nil (with_priority heap q refs))
  ]

  HasNoKey-add_to_group :
      (p r q : ℕ) (es : List Entry) → q ≢ p → HasNoKey q es → HasNoKey q (add_to_group p r es)
  unfolding add_to_group
  HasNoKey-add_to_group p r q [] n h = ground arith
  HasNoKey-add_to_group p r q ((s, rs) ∷ es) n h =
      ground (arith, HasNoKey-add_to_group p r q es n h.1)

  HasDistinctKeys-add_to_group :
      (p r : ℕ) (es : List Entry) → HasDistinctKeys es → HasDistinctKeys (add_to_group p r es)
  unfolding add_to_group
  HasDistinctKeys-add_to_group p r [] d = (tt, tt)
  HasDistinctKeys-add_to_group p r ((s, rs) ∷ es) d =
      ground (arith, HasDistinctKeys-add_to_group p r es d.1, HasNoKey-add_to_group p r s es)

  has_key-add_to_group :
      (p r q : ℕ) (es : List Entry) → has_key q (add_to_group p r es) ≡ (has_key q es || p == q)
  unfolding add_to_group
  has_key-add_to_group p r q [] = ground arith
  has_key-add_to_group p r q ((s, rs) ∷ es) = ground (arith, has_key-add_to_group p r q es)

  Covers-add_to_group :
      (p r : ℕ) (refs : List ℕ) (es : List Entry)
      → Covers heap refs es
      → Covers heap refs (add_to_group p r es)
  Covers-add_to_group p r [] es c = tt
  Covers-add_to_group p r (x ∷ refs) es c = (
    ground (arith, has_key-add_to_group p r (heap x).priority es, c.0),
    Covers-add_to_group p r refs es c.1,
  )

  pub record IsGrouping (refs : List ℕ) (es : List Entry) : Type 0 where
    pub distinct : HasDistinctKeys es
    pub whole : AreWhole heap refs es
    pub covers : Covers heap refs es

  add_to_group-IsGrouping :
      (refs : List ℕ) (r : ℕ) (es : List Entry)
      → IsGrouping refs es
      → IsGrouping (refs ++ r ∷ []) (add_to_group (heap r).priority r es)
  add_to_group-IsGrouping refs r es g =
      let p = (heap r).priority in
      record {
        distinct = HasDistinctKeys-add_to_group p r es g.distinct;
        whole =
            add_to_group-AreWhole refs r es g.distinct g.whole
              (λ h. with_priority_uncovered p refs es g.covers h);
        covers =
            All-append (λ x. has_key (heap x).priority (add_to_group p r es) ≡ true) refs (r ∷ [])
              (Covers-add_to_group p r refs es g.covers)
              (ground (arith, has_key-add_to_group p r p es), tt);
      }

  group_by_priority-IsGrouping :
      (refs seen : List ℕ) (es : List Entry)
      → IsGrouping seen es
      → IsGrouping (seen ++ refs) (group_by_priority heap es refs)
  unfolding group_by_priority
  group_by_priority-IsGrouping [] seen es g = rw (append-nil seen) g
  group_by_priority-IsGrouping (r ∷ refs) seen es g = rw (append_assoc seen (r ∷ []) refs) at (
      group_by_priority-IsGrouping refs (seen ++ r ∷ []) (add_to_group (heap r).priority r es)
        (add_to_group-IsGrouping seen r es g))

  pub groups-IsGrouping : (refs : List ℕ) → IsGrouping refs (group_by_priority heap [] refs)
  groups-IsGrouping refs =
      group_by_priority-IsGrouping refs [] [] (record { distinct = tt; whole = tt; covers = tt })
