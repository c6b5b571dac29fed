-- ===== src/ConnectionManager/Checks.antt =====
-- The checks of many connections of MoneroConnectionManager.ts. The checks run at a time: what each
-- connection answers, with the time it takes, is an argument, and so is the order in which the checks
-- settle. Listeners are taken to settle at once, so what follows a check is one step.
pub mod Switch
pub mod Available
pub mod Related
pub mod Rounds
pub mod Current
pub mod Tried
pub mod Switching
pub mod Whole
use qwertycoin_ts.Common.{
  ℕ, ◌≡◌, Bool, true, false, not, ◌&&◌, ◌||◌, List, [], ◌∷◌, Option, none, some, if◌then◌else◌,
  same_num, same_flag,
}
use qwertycoin_ts.Common.Result.{Result, ok, err, ◌>>=◌}
use qwertycoin_ts.RpcConnection.{RpcConnection, HttpReply, check_connection}
use qwertycoin_ts.ConnectionManager.{
  Manager, ManagerError, update, on_connection_changed, set_object, manager_connected,
}
use qwertycoin_ts.ConnectionManager.Priority.{get_connections_in_ascending_priority}
use qwertycoin_ts.ConnectionManager.Responses.{
  Item, undefined, connection, array_contains, connected, process_responses,
}

-- A round of checks: what has been done, `hasConnection` as `found_connection`, and the first error of a promise.
pub record Round : Type 0 where
  pub manager : Manager
  pub found_connection : Bool
  pub thrown : Option ManagerError

-- `if (excludedConnections && arrayContains(...)) continue`
unfoldable pub included : (ℕ → RpcConnection) → List Item → List ℕ → List ℕ
included heap excluded [] = []
included heap excluded (r ∷ refs) =
    let rest = included heap excluded refs in
    if array_contains heap excluded (connection r) then rest else r ∷ rest

abbrev first_error : Option ManagerError → ManagerError → Option ManagerError
first_error none e = some e
first_error (some earlier) e = some earlier

abbrev pub is_manager_connected : Manager → Bool
is_manager_connected m = same_flag (manager_connected m) (some true)

-- `await that.setConnection(connection)`, whose error rejects the promise.
unfoldable pub switched : Round → Result ManagerError Manager → Round
switched round (ok m) = record round { manager = m }
switched round (err e) = record round { thrown = first_error round.thrown e }

-- The first available connection is set if the manager is disconnected.
unfoldable pub set_first_available : Round → ℕ → Round
unfolding switched
set_first_available round r =
    if not (is_manager_connected round.manager) && round.manager.auto_switch
    then switched (record round { found_connection = true }) (set_object round.manager r)
    else record round { found_connection = true }

-- A connection with the result of its check.
unfoldable pub with_check : Manager → ℕ → RpcConnection × Bool → Manager
with_check m r (c, change) =
    let m' = record m { heap = update m.heap r c } in
    if change && same_num (some r) m.current_connection
    then on_connection_changed m' (some r)
    else m'

module _ (answers : ℕ → HttpReply × ℕ) where
  -- The manager once a check has settled, and its listeners have been called.
  unfoldable pub checked : Manager → ℕ → Manager
  unfolding with_check
  checked m r = with_check m r (check_connection (m.heap r) (answers r).0 (answers r).1)

  -- The body of a promise in `checkConnectionsAux`.
  unfoldable pub settle_check : Round → ℕ → Round
  unfolding checked set_first_available
  settle_check round r =
      let round' = record round { manager = checked round.manager r } in
      if connected round'.manager r && not round.found_connection
      then set_first_available round' r
      else round'

  unfoldable pub settle_checks : Round → List ℕ → Round
  unfolding settle_check
  settle_checks round [] = round
  settle_checks round (r ∷ refs) = settle_checks (settle_check round r) refs

  -- After `Promise.all`.
  unfoldable pub finish_round : List ℕ → Round → Result ManagerError (Manager × Bool)
  finish_round connections round = elim round.thrown [
    | some e ↦ err e
    | none ↦
        process_responses round.manager connections
        >>= (λ (m, best). ok (m, round.found_connection))
  ]

  -- `in_order` are the checks that are started, in the order in which they settle.
  unfoldable pub check_connections_aux :
      (List ℕ → List ℕ) → Manager → List ℕ → List Item → Result ManagerError (Manager × Bool)
  unfolding settle_checks included finish_round
  check_connections_aux in_order m connections excluded = finish_round connections (
      settle_checks (record { manager = m; found_connection = false; thrown = none })
        (in_order (included m.heap excluded connections)))

  -- The loop of `checkPrioritizedConnections` over the groups.
  unfoldable pub check_groups :
      (List ℕ → List ℕ) → Manager → List (List ℕ) → List Item → Result ManagerError Manager
  unfolding check_connections_aux
  check_groups in_order m [] excluded = ok m
  check_groups in_order m (g ∷ groups) excluded = do
    (m', has_connection) ← check_connections_aux in_order m g excluded
    elim has_connection [ true ↦ ok m' | false ↦ check_groups in_order m' groups excluded ]

  unfoldable pub check_prioritized_connections :
      (List ℕ → List ℕ) → Manager → List Item → Result ManagerError Manager
  unfolding check_groups
  check_prioritized_connections in_order m excluded =
      check_groups in_order m (get_connections_in_ascending_priority m) excluded
