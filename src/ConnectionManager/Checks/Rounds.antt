-- ===== src/ConnectionManager/Checks/Rounds.antt =====
-- Rounds of checks of MoneroConnectionManager.ts, in every order in which the checks can settle.
use qwertycoin_ts.Common.{
  ℕ, ◌≡◌, refl, sym, ap, ◌∙◌, subst, Bool, true, false, List, [], ◌∷◌, none, some, arith, All,
  includes, Bool-cases, inl, inr, if◌then◌else◌,
}
use qwertycoin_ts.Common.Result.{ok, err, ◌>>=◌}
use qwertycoin_ts.RpcConnection.{HttpReply, check_connection}
use qwertycoin_ts.ConnectionManager.{Manager}
use qwertycoin_ts.ConnectionManager.Priority.{get_connections_in_ascending_priority}
use qwertycoin_ts.ConnectionManager.Responses.{Item, process_responses}
use qwertycoin_ts.ConnectionManager.Checks.{
  Round, included, set_first_available, switched, with_check, checked, settle_check, settle_checks,
  finish_round, check_connections_aux, check_groups, check_prioritized_connections,
}
use qwertycoin_ts.ConnectionManager.Checks.Switch.{IsServing, set_managed}
use qwertycoin_ts.ConnectionManager.Checks.Available.{
  AreOffline, AreManaged, groups-AreManaged, groups-AreOffline, process_responses-connects,
}
use qwertycoin_ts.ConnectionManager.Checks.Related.{
  Follows, Follows-trans, with_check-Follows, check_connection-uri, SettlesStarted,
  IsConnectedIfAny, included-within, AreManaged-Follows,
}

-- A round in which no promise was rejected.
pub record IsQuiet (m : Manager) (round : Round) : Type 0 where
  pub follows : Follows m round.manager
  pub no_error : round.thrown ≡ none

if-IsQuiet :
    (b : Bool) (m : Manager) (p q : Round)
    → IsQuiet m p
    → IsQuiet m q
    → IsQuiet m (if b then p else q)
if-IsQuiet true m p q f g = f
if-IsQuiet false m p q f g = g

set_first_available-IsQuiet :
    (m : Manager) (round : Round) (r : ℕ)
    → IsQuiet m round
    → includes m.connections r ≡ true
    → IsQuiet m (set_first_available round r)
unfolding set_first_available switched
set_first_available-IsQuiet m round r q i =
    let (m', x, s') = set_managed round.manager r q.follows.serving (q.follows.managed r ∙ i) in
    if-IsQuiet _ m _ _
      (subst (λ t. IsQuiet m (switched (record round { found_connection = true }) t)) (sym x.run)
        (record {
          follows = record { serving = s'; managed = λ y. x.keeps_managed y ∙ q.follows.managed y };
          no_error = q.no_error;
        }))
      (record { follows = q.follows; no_error = q.no_error })

module _ (answers : ℕ → HttpReply × ℕ) where
  settle_check-IsQuiet :
      (m : Manager) (round : Round) (r : ℕ)
      → IsQuiet m round
      → includes m.connections r ≡ true
      → IsQuiet m (settle_check answers round r)
  unfolding settle_check checked
  settle_check-IsQuiet m round r q i =
      let n = round.manager in
      let c = check_connection (n.heap r) (answers r).0 (answers r).1 in
      let f : Follows n (with_check n r c) =
        with_check-Follows n r c (check_connection-uri (n.heap r) (answers r).0 (answers r).1)
          q.follows.serving in
      let q' : IsQuiet m (record round { manager = with_check n r c }) = record {
        follows = Follows-trans m n _ q.follows f;
        no_error = q.no_error;
      } in
      if-IsQuiet _ m _ _ (set_first_available-IsQuiet m _ r q' i) q'

  settle_checks-IsQuiet :
      (m : Manager) (round : Round) (refs : List ℕ)
      → IsQuiet m round
      → ((x : ℕ) → includes refs x ≡ true → includes m.connections x ≡ true)
      → IsQuiet m (settle_checks answers round refs)
  unfolding settle_checks
  settle_checks-IsQuiet m round [] q w = q
  settle_checks-IsQuiet m round (r ∷ refs) q w =
      settle_checks-IsQuiet m (settle_check answers round r) refs
        (settle_check-IsQuiet m round r q (w r (ground arith))) (λ x i. w x (ground arith))

  finish_round-connects :
      (m : Manager) (connections : List ℕ) (round : Round)
      → IsQuiet m round
      → (m' : Manager) × (finish_round answers connections round ≡ ok (m', round.found_connection))
        × Follows m m'
        × IsConnectedIfAny m'
  unfolding finish_round
  finish_round-connects m connections round q =
      let (m', best, run, s', kept, after) =
        process_responses-connects round.manager connections q.follows.serving in
      let found = round.found_connection in
      let no_error : finish_round answers connections round
          ≡ process_responses round.manager connections >>= (λ p. ok (p.0, found)) =
        ap
          (λ e. elim e [
            | some e ↦ err e
            | none ↦ process_responses round.manager connections >>= (λ p. ok (p.0, found))
          ])
          q.no_error in
      (
        m',
        no_error ∙ ap (λ t. t >>= (λ p. ok (p.0, found))) run,
        record { serving = s'; managed = λ x. kept x ∙ q.follows.managed x },
        after,
      )

  -- A round of checks.
  pub check_connections_aux-connects :
      (in_order : List ℕ → List ℕ) (m : Manager) (connections : List ℕ) (excluded : List Item)
      → SettlesStarted in_order
      → IsServing m
      → ((x : ℕ) → includes connections x ≡ true → includes m.connections x ≡ true)
      → (m' : Manager) × (found : Bool) × (check_connections_aux answers in_order m connections
            excluded
          ≡ ok (m', found))
        × Follows m m'
        × IsConnectedIfAny m'
  unfolding check_connections_aux
  check_connections_aux-connects in_order m connections excluded o s w =
      let started = included m.heap excluded connections in
      let first : Round = record { manager = m; found_connection = false; thrown = none } in
      let quiet : IsQuiet m first = record {
        follows = record { serving = s; managed = λ x. refl };
        no_error = refl;
      } in
      let round = settle_checks answers first (in_order started) in
      let settled : IsQuiet m round =
        settle_checks-IsQuiet m first (in_order started) quiet
          (λ x i. w x (included-within m.heap excluded connections x (o started x i))) in
      let (m', run, f, c) = finish_round-connects m connections round settled in
      (m', round.found_connection, run, f, c)

  check_groups-connects :
      (in_order : List ℕ → List ℕ) (m : Manager) (groups : List (List ℕ)) (excluded : List Item)
      → SettlesStarted in_order
      → IsServing m
      → AreManaged m groups
      → (groups ≡ [] → IsConnectedIfAny m)
      → (m' : Manager) × (check_groups answers in_order m groups excluded ≡ ok m')
        × Follows m m'
        × IsConnectedIfAny m'
  unfolding check_groups
  check_groups-connects in_order m [] excluded o s w e =
      (m, refl, record { serving = s; managed = λ x. refl }, e refl)
  check_groups-connects in_order m (g ∷ groups) excluded o s w e =
      let (m1, found, run, f, c) = check_connections_aux-connects in_order m g excluded o s w.0 in
      let reached : check_groups answers in_order m (g ∷ groups) excluded
          ≡ elim found [ true ↦ ok m1 | false ↦ check_groups answers in_order m1 groups excluded ] =
        ap
          (λ t. t >>= (λ p. elim p.1 [
            | true ↦ ok p.0
            | false ↦ check_groups answers in_order p.0 groups excluded
          ]))
          run in
      elim (Bool-cases found) [
        | inl yes_found ↦ (
          m1,
          reached
              ∙ ap
                  (λ b. elim b [
                    | true ↦ ok m1
                    | false ↦ check_groups answers in_order m1 groups excluded
                  ])
                  yes_found,
          f,
          c,
        )
        | inr not_found ↦
            let (m2, run', f', c') =
              check_groups-connects in_order m1 groups excluded o f.serving
                (AreManaged-Follows m m1 groups f w.1) (λ _. c) in
            (
              m2,
              reached
                  ∙ ap
                      (λ b. elim b [
                        | true ↦ ok m1
                        | false ↦ check_groups answers in_order m1 groups excluded
                      ])
                      not_found
                  ∙ run',
              Follows-trans m m1 m2 f f',
              c',
            )
      ]

-- In `checkPrioritizedConnections` with automatic switching, from a valid manager whose connections
-- have URIs and of whom no response time is recorded, nothing is thrown, whatever the connections
-- answer, whichever are excluded, and in whatever order the checks settle; it manages the same
-- connections, and leaves a manager that is connected or of whose connections none is.
pub check_prioritized_connections-connects :
    (answers : ℕ → HttpReply × ℕ) (in_order : List ℕ → List ℕ) (m : Manager) (excluded : List Item)
    → SettlesStarted in_order
    → IsServing m
    → (m' : Manager) × (check_prioritized_connections answers in_order m excluded ≡ ok m')
      × Follows m m'
      × IsConnectedIfAny m'
unfolding check_prioritized_connections
check_prioritized_connections-connects answers in_order m excluded o s =
    let gs = get_connections_in_ascending_priority m in
    check_groups-connects answers in_order m gs excluded o s (groups-AreManaged m)
      (λ none_left. inr (groups-AreOffline m (subst (All (AreOffline m)) (sym none_left) tt)))
