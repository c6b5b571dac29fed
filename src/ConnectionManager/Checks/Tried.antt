-- ===== src/ConnectionManager/Checks/Tried.antt =====
-- The search for an available connection in MoneroConnectionManager.ts.
use qwertycoin_ts.Common.{
  ℕ, ◌≡◌, ◌⊎◌, refl, sym, ap, ◌∙◌, subst, true, false, List, [], ◌∷◌, Option, none, some, arith,
  includes, ◌==◌, Bool-cases, inl, inr, if◌then◌else◌, same_flag,
}
use qwertycoin_ts.RpcConnection.{HttpReply, is_connected}
use qwertycoin_ts.ConnectionManager.{Manager}
use qwertycoin_ts.ConnectionManager.Responses.{Item, connected}
use qwertycoin_ts.ConnectionManager.Checks.{included}
use qwertycoin_ts.ConnectionManager.Checks.Switch.{IsServing}
use qwertycoin_ts.ConnectionManager.Checks.Available.{AreOffline, AreManaged}
use qwertycoin_ts.ConnectionManager.Checks.Related.{
  Follows, Follows-trans, heap-Follows, check_connection-uri, SettlesStarted, included-within,
  AreManaged-Follows,
}
use qwertycoin_ts.ConnectionManager.Checks.Current.{
  check_of, with_checked, first_available, best_available_from,
}

module _ (answers : ℕ → HttpReply × ℕ) where
  pub with_checked-Follows :
      (m : Manager) (r : ℕ) → IsServing m → Follows m (with_checked answers m r)
  with_checked-Follows m r s =
      heap-Follows m r (check_of answers m r).0
        (check_connection-uri (m.heap r) (answers r).0 (answers r).1) s

  -- A check leaves the other connections as they are.
  AreOffline-with_checked :
      (m : Manager) (r : ℕ) (refs : List ℕ)
      → connected (with_checked answers m r) r ≡ false
      → AreOffline m refs
      → AreOffline (with_checked answers m r) refs
  AreOffline-with_checked m r [] e h = tt
  AreOffline-with_checked m r (x ∷ refs) e h = (
    elim (Bool-cases (x == r)) [
      | inl same ↦
          let at : x ≡ r = ground arith in
          subst (λ y. connected (with_checked answers m r) y ≡ false) (sym at) e
      | inr other ↦
          ap
            (λ b.
              same_flag (is_connected (if b then (check_of answers m r).0 else m.heap x))
                (some true))
            other
          ∙ h.0
    ],
    AreOffline-with_checked m r refs e h.1,
  )

-- What the search from a manager comes to: a managed connection that is connected, or no managed
-- connection is.
pub record IsTried (m : Manager) (t : Manager × Option ℕ × List ℕ) : Type 0 where
  pub follows : Follows m t.0
  pub available :
      ((r : ℕ) × (t.1 ≡ some r) × (includes m.connections r ≡ true) × (connected t.0 r ≡ true))
      ⊎ ((t.1 ≡ none) × AreOffline t.0 t.0.connections)

IsTried-Follows :
    (m m' : Manager) (t : Manager × Option ℕ × List ℕ) → Follows m m' → IsTried m' t → IsTried m t
IsTried-Follows m m' t f i = record {
  follows = Follows-trans m m' t.0 f i.follows;
  available = elim i.available [
    | inl (r, e, managed, c) ↦ inl (r, e, sym (f.managed r) ∙ managed, c)
    | inr off ↦ inr off
  ];
}

module _ (answers : ℕ → HttpReply × ℕ) where
  first_available-IsTried :
      (m : Manager) (refs : List ℕ)
      → IsServing m
      → ((x : ℕ) → includes refs x ≡ true → includes m.connections x ≡ true)
      → AreOffline m m.connections
      → IsTried m (first_available answers m refs)
  unfolding first_available
  first_available-IsTried m [] s w h = record {
    follows = record { serving = s; managed = λ x. refl };
    available = inr (refl, h);
  }
  first_available-IsTried m (r ∷ refs) s w h =
      let q = with_checked answers m r in
      let f = with_checked-Follows answers m r s in
      elim (Bool-cases (connected q r)) [
        | inl on ↦
            subst (λ b. IsTried m (if b then (q, some r, refs) else first_available answers q refs))
              (sym on) (record { follows = f; available = inl (r, refl, w r (ground arith), on) })
        | inr off ↦
            subst (λ b. IsTried m (if b then (q, some r, refs) else first_available answers q refs))
              (sym off)
              (IsTried-Follows m q _ f (
                first_available-IsTried q refs f.serving (λ x i. w x (ground arith))
                  (AreOffline-with_checked answers m r m.connections off h)))
      ]

  pub best_available_from-IsTried :
      (in_order : List ℕ → List ℕ) (m : Manager) (gs : List (List ℕ)) (excluded : List Item)
      → SettlesStarted in_order
      → IsServing m
      → AreManaged m gs
      → AreOffline m m.connections
      → IsTried m (best_available_from answers in_order m gs excluded)
  unfolding best_available_from
  best_available_from-IsTried in_order m [] excluded o s w h = record {
    follows = record { serving = s; managed = λ x. refl };
    available = inr (refl, h);
  }
  best_available_from-IsTried in_order m (g ∷ gs) excluded o s w h =
      let started = included m.heap excluded g in
      let t = first_available answers m (in_order started) in
      let i : IsTried m t =
        first_available-IsTried m (in_order started) s
          (λ x j. w.0 x (included-within m.heap excluded g x (o started x j))) h in
      let chosen : Option ℕ → Manager × Option ℕ × List ℕ = λ best. elim best [
        | some r ↦ (t.0, some r, t.2)
        | none ↦ best_available_from answers in_order t.0 gs excluded
      ] in
      elim i.available [
        | inl (r, e, managed, c) ↦
            subst (λ best. IsTried m (chosen best)) (sym e)
              (record { follows = i.follows; available = inl (r, refl, managed, c) })
        | inr (e, off) ↦
            subst (λ best. IsTried m (chosen best)) (sym e)
              (IsTried-Follows m t.0 _ i.follows (
                best_available_from-IsTried in_order t.0 gs excluded o i.follows.serving
                  (AreManaged-Follows m t.0 gs i.follows w.1) off))
      ]
