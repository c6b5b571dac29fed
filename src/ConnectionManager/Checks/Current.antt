-- ===== src/ConnectionManager/Checks/Current.antt =====
-- `checkConnection` and `getBestAvailableConnection` of MoneroConnectionManager.ts. `Promise.any`
-- resolves with the first check that finds a connection; the checks that are pending then settle later.
use qwertycoin_ts.Common.{
  ℕ, Bool, false, not, ◌&&◌, List, [], ◌∷◌, Option, none, some, if◌then◌else◌,
}
use qwertycoin_ts.Common.Result.{Result, ok, ◌>>=◌}
use qwertycoin_ts.RpcConnection.{RpcConnection, HttpReply, check_connection}
use qwertycoin_ts.ConnectionManager.{
  Manager, ManagerError, update, set_object, on_connection_changed,
}
use qwertycoin_ts.ConnectionManager.Priority.{get_connections_in_ascending_priority}
use qwertycoin_ts.ConnectionManager.Responses.{
  Item, undefined, connection, connected, process_responses,
}
use qwertycoin_ts.ConnectionManager.Checks.{included, is_manager_connected}

abbrev pub current_item : Option ℕ → Item
current_item none = undefined
current_item (some r) = connection r

abbrev pub announce_if : Bool → Option ℕ → Manager → Manager
announce_if changed c m = if changed then on_connection_changed m c else m

-- The best available connection is set.
unfoldable pub switch_to :
    Bool → Option ℕ → Manager × Option ℕ × List ℕ → Result ManagerError (Manager × List ℕ)
switch_to changed current (m, some r, pending) = set_object m r >>= (λ m'. ok (m', pending))
switch_to changed current (m, none, pending) = ok (announce_if changed current m, pending)

module _ (answers : ℕ → HttpReply × ℕ) where
  abbrev pub check_of : Manager → ℕ → RpcConnection × Bool
  check_of m r = check_connection (m.heap r) (answers r).0 (answers r).1

  abbrev pub with_checked : Manager → ℕ → Manager
  with_checked m r = record m { heap = update m.heap r (check_of m r).0 }

  -- `Promise.any`: the first connection that is available, and the checks that are pending.
  unfoldable pub first_available : Manager → List ℕ → Manager × Option ℕ × List ℕ
  first_available m [] = (m, none, [])
  first_available m (r ∷ refs) =
      let rest = first_available (with_checked m r) refs in
      if connected (with_checked m r) r then (with_checked m r, some r, refs) else rest

  -- The loop of `getBestAvailableConnection` over the groups.
  unfoldable pub best_available_from :
      (List ℕ → List ℕ) → Manager → List (List ℕ) → List Item → Manager × Option ℕ × List ℕ
  unfolding first_available
  best_available_from in_order m [] excluded = (m, none, [])
  best_available_from in_order m (g ∷ groups) excluded =
      let (m', best, pending) = first_available m (in_order (included m.heap excluded g)) in
      elim best [
        | some r ↦ (m', some r, pending)
        | none ↦ best_available_from in_order m' groups excluded
      ]

  unfoldable pub get_best_available_connection :
      (List ℕ → List ℕ) → Manager → List Item → Manager × Option ℕ × List ℕ
  unfolding best_available_from
  get_best_available_connection in_order m excluded =
      best_available_from in_order m (get_connections_in_ascending_priority m) excluded

  -- The current connection is checked, if there is one, and its response is processed.
  unfoldable pub check_current : Manager → Option ℕ → Result ManagerError (Manager × Bool)
  check_current m none = ok (m, false)
  check_current m (some c) =
      process_responses (with_checked m c) (c ∷ []) >>= (λ (m', best). ok (m', (check_of m c).1))

  -- `checkConnection` of the manager, with the checks that are pending.
  unfoldable pub check_manager_connection :
      (List ℕ → List ℕ) → Manager → Result ManagerError (Manager × List ℕ)
  unfolding check_current switch_to get_best_available_connection
  check_manager_connection in_order m = check_current m m.current_connection >>= (λ (m', changed).
      if m'.auto_switch && not (is_manager_connected m')
      then switch_to changed m.current_connection
          (get_best_available_connection in_order m' (current_item m.current_connection ∷ []))
      else ok (announce_if changed m.current_connection m', []))
