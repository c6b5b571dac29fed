-- ===== src/ConnectionManager/Checks/Switching.antt =====
-- `checkConnection` of MoneroConnectionManager.ts switches to an available connection.
use qwertycoin_ts.Common.{
  ℕ, ◌≡◌, refl, ap, ◌∙◌, subst, Bool, true, false, not, ◌&&◌, List, [], ◌∷◌, Option, none, some,
  arith, includes, Bool-cases, inl, inr, if◌then◌else◌,
}
use qwertycoin_ts.Common.Result.{Result, ok, ◌>>=◌}
use qwertycoin_ts.RpcConnection.{HttpReply}
use qwertycoin_ts.ConnectionManager.{Manager, ManagerError, manager_connected}
use qwertycoin_ts.ConnectionManager.Priority.{get_connections_in_ascending_priority}
use qwertycoin_ts.ConnectionManager.Responses.{connected}
use qwertycoin_ts.ConnectionManager.Checks.{is_manager_connected}
use qwertycoin_ts.ConnectionManager.Checks.Switch.{IsServing, set_managed}
use qwertycoin_ts.ConnectionManager.Checks.Available.{
  groups-AreManaged, process_responses-connects, connects,
}
use qwertycoin_ts.ConnectionManager.Checks.Related.{
  Follows, Follows-trans, notified-Follows, SettlesStarted, IsConnectedIfAny,
}
use qwertycoin_ts.ConnectionManager.Checks.Current.{
  current_item, announce_if, check_of, with_checked, get_best_available_connection, check_current,
  switch_to, check_manager_connection,
}
use qwertycoin_ts.ConnectionManager.Checks.Tried.{
  IsTried, with_checked-Follows, best_available_from-IsTried,
}

module _ (answers : ℕ → HttpReply × ℕ) where
  announce_if-Follows :
      (b : Bool) (c : Option ℕ) (m : Manager) → IsServing m → Follows m (announce_if b c m)
  announce_if-Follows true c m s =
      notified-Follows m m c (record { serving = s; managed = λ x. refl })
  announce_if-Follows false c m s = record { serving = s; managed = λ x. refl }

  announce_if-IsConnectedIfAny :
      (b : Bool) (c : Option ℕ) (m : Manager)
      → IsConnectedIfAny m
      → IsConnectedIfAny (announce_if b c m)
  unfolding manager_connected
  announce_if-IsConnectedIfAny true c m h = elim h [ inl on ↦ inl on | inr off ↦ inr off ]
  announce_if-IsConnectedIfAny false c m h = h

  switch_to-IsConnectedIfAny :
      (changed : Bool) (c : Option ℕ) (m : Manager) (t : Manager × Option ℕ × List ℕ)
      → IsTried m t
      → (m' : Manager) × (pending : List ℕ) × (switch_to changed c t ≡ ok (m', pending))
        × Follows m m'
        × IsConnectedIfAny m'
  unfolding switch_to
  switch_to-IsConnectedIfAny changed c m (n, some r, pending) i = elim i.available [
    | inl (r', e, managed, on) ↦
        let at : r' ≡ r = ground arith in
        let managed' : includes n.connections r ≡ true =
          i.follows.managed r ∙ subst (λ x. includes m.connections x ≡ true) at managed in
        let on' : connected n r ≡ true = subst (λ x. connected n x ≡ true) at on in
        let (m', x, s') = set_managed n r i.follows.serving managed' in
        (
          m',
          pending,
          ap (λ t. t >>= (λ m''. ok (m'', pending))) x.run,
          Follows-trans m n m' i.follows (record { serving = s'; managed = x.keeps_managed }),
          inl (connects m' r x.current (x.connects r ∙ on')),
        )
    | inr (e, off) ↦ absurd (ground arith)
  ]
  switch_to-IsConnectedIfAny changed c m (n, none, pending) i = elim i.available [
    | inl (r', e, managed, on) ↦ absurd (ground arith)
    | inr (e, off) ↦ (
      announce_if changed c n,
      pending,
      refl,
      Follows-trans m n _ i.follows (announce_if-Follows changed c n i.follows.serving),
      announce_if-IsConnectedIfAny changed c n (inr off),
    )
  ]

  check_current-Follows :
      (m : Manager) (c : ℕ)
      → IsServing m
      → (m' : Manager) × (check_current answers m (some c) ≡ ok (m', (check_of answers m c).1))
        × Follows m m'
        × IsConnectedIfAny m'
  unfolding check_current
  check_current-Follows m c s =
      let f = with_checked-Follows answers m c s in
      let (m', best, run, s', kept, after) =
        process_responses-connects (with_checked answers m c) (c ∷ []) f.serving in
      let changed = (check_of answers m c).1 in
      (
        m',
        ap (λ t. t >>= (λ p. ok (p.0, changed))) run,
        Follows-trans m (with_checked answers m c) m' f (record { serving = s'; managed = kept }),
        after,
      )

  -- The rest of `checkConnection`, given the manager once the current connection is checked.
  finish_check :
      (in_order : List ℕ → List ℕ) (m : Manager) (changed : Bool) (current : Option ℕ)
      → SettlesStarted in_order
      → IsServing m
      → IsConnectedIfAny m
      → (m' : Manager) × (pending : List ℕ) × ((if m.auto_switch && not (is_manager_connected m)
            then switch_to changed current
                (get_best_available_connection answers in_order m (current_item current ∷ []))
            else ok (announce_if changed current m, []))
          ≡ ok (m', pending))
        × Follows m m'
        × IsConnectedIfAny m'
  unfolding get_best_available_connection
  finish_check in_order m changed current o s c = elim c [
    | inl on ↦ (
      announce_if changed current m,
      [],
      ap
          (λ b.
            if b
            then switch_to changed current
                (get_best_available_connection answers in_order m (current_item current ∷ []))
            else ok (announce_if changed current m, []))
          (stays m.auto_switch _ on),
      announce_if-Follows changed current m s,
      announce_if-IsConnectedIfAny changed current m (inl on),
    )
    | inr off ↦ elim (Bool-cases (is_manager_connected m)) [
      | inl on ↦ (
        announce_if changed current m,
        [],
        ap
            (λ b.
              if b
              then switch_to changed current
                  (get_best_available_connection answers in_order m (current_item current ∷ []))
              else ok (announce_if changed current m, []))
            (stays m.auto_switch _ on),
        announce_if-Follows changed current m s,
        announce_if-IsConnectedIfAny changed current m (inl on),
      )
      | inr not_on ↦
          let t = get_best_available_connection answers in_order m (current_item current ∷ []) in
          let (m', pending, run, f, c') = switch_to-IsConnectedIfAny changed current m t (
            best_available_from-IsTried answers in_order m (get_connections_in_ascending_priority m)
              (current_item current ∷ []) o s (groups-AreManaged m) off) in
          (
            m',
            pending,
            ap
                  (λ b.
                    if b
                    then switch_to changed current t
                    else ok (announce_if changed current m, []))
                  (switches m.auto_switch _ s.auto_switches not_on)
                ∙ run,
            f,
            c',
          )
    ]
  ]
    where
      stays : (a b : Bool) → b ≡ true → (a && not b) ≡ false
      stays a b e = ground arith

      switches : (a b : Bool) → a ≡ true → b ≡ false → (a && not b) ≡ true
      switches a b e f = ground arith

-- `checkConnection` of a manager that switches automatically, is valid and has a current connection,
-- whose connections have URIs and of which no response time is recorded: whatever the connections
-- answer, and in whatever order the checks settle, it throws nothing, manages the same connections,
-- and leaves a manager that is connected or of whose connections none is.
pub check_manager_connection-connects :
    (answers : ℕ → HttpReply × ℕ) (in_order : List ℕ → List ℕ) (m : Manager) (c : ℕ)
    → SettlesStarted in_order
    → IsServing m
    → m.current_connection ≡ some c
    → (m' : Manager) × (pending : List ℕ) × (check_manager_connection answers in_order m
        ≡ ok (m', pending))
      × Follows m m'
      × IsConnectedIfAny m'
unfolding check_manager_connection
check_manager_connection-connects answers in_order m c o s e =
    let (m1, run, f, on) = check_current-Follows answers m c s in
    let changed = (check_of answers m c).1 in
    let (m2, pending, run', f', on') =
      finish_check answers in_order m1 changed (some c) o f.serving on in
    let rest : Option ℕ → Manager × Bool → Result ManagerError (Manager × List ℕ) =
      λ current (p : Manager × Bool).
        if p.0.auto_switch && not (is_manager_connected p.0)
        then switch_to p.1 current
            (get_best_available_connection answers in_order p.0 (current_item current ∷ []))
        else ok (announce_if p.1 current p.0, []) in
    (
      m2,
      pending,
      ap (λ current. check_current answers m current >>= rest current) e
          ∙ ap (λ t. t >>= rest (some c)) run
          ∙ run',
      Follows-trans m m1 m2 f f',
      on',
    )
