-- ===== src/ConnectionManager/Checks/Whole.antt =====
-- `checkConnections` and `checkConnectionPromises` of MoneroConnectionManager.ts, which check all managed
-- connections in their sorted order. The pool of the promises has a thread for each connection, so
-- that all checks start at once; what a check throws is ignored.
use qwertycoin_ts.Common.{
  ℕ, ◌≡◌, ap, Bool, true, List, [], ◌∷◌, Option, some, arith, includes, length, Text,
}
use qwertycoin_ts.Common.Result.{Result, ok, err, ◌>>=◌}
use qwertycoin_ts.ThreadPool.{PoolError, max_concurrency_too_small, new_pool}
use qwertycoin_ts.RpcConnection.{HttpReply}
use qwertycoin_ts.ConnectionManager.{Manager, ManagerError}
use qwertycoin_ts.ConnectionManager.Sorting.{
  Sign, negative, same, positive, compare_connections, insert_connection, sort_connections,
  get_connections,
}
use qwertycoin_ts.ConnectionManager.Checks.{checked, check_connections_aux}
use qwertycoin_ts.ConnectionManager.Checks.Switch.{IsServing}
use qwertycoin_ts.ConnectionManager.Checks.Related.{Follows, SettlesStarted, IsConnectedIfAny}
use qwertycoin_ts.ConnectionManager.Checks.Rounds.{check_connections_aux-connects}

module _ (locale_compare : Option Text → Option Text → Sign) (answers : ℕ → HttpReply × ℕ) where
  unfoldable pub check_connections :
      (List ℕ → List ℕ) → Manager → Result ManagerError (Manager × Bool)
  unfolding check_connections_aux get_connections
  check_connections in_order m =
      check_connections_aux answers in_order m (get_connections locale_compare m) []

  -- The manager once all checks have settled.
  unfoldable pub all_checked : Manager → List ℕ → Manager
  unfolding checked
  all_checked m [] = m
  all_checked m (r ∷ refs) = all_checked (checked answers m r) refs

  unfoldable pub check_connection_promises : (List ℕ → List ℕ) → Manager → Result PoolError Manager
  unfolding all_checked get_connections new_pool
  check_connection_promises in_order m = do
    pool ← new_pool (some (length m.connections))
    ok (all_checked m (in_order (get_connections locale_compare m)))

  includes-insert_connection :
      (m : Manager) (r : ℕ) (refs : List ℕ) (x : ℕ)
      → includes (insert_connection locale_compare m r refs) x ≡ true
      → includes (r ∷ refs) x ≡ true
  unfolding insert_connection
  includes-insert_connection m r [] x i = i
  includes-insert_connection m r (s ∷ refs) x i =
      inserted (compare_connections locale_compare m r s) (includes-insert_connection m r refs x) i
    where
      inserted :
          (sign : Sign)
          → (includes (insert_connection locale_compare m r refs) x ≡ true
              → includes (r ∷ refs) x ≡ true)
          → includes
              (elim sign [
                | positive ↦ s ∷ insert_connection locale_compare m r refs
                | _ ↦ r ∷ s ∷ refs
              ])
              x
            ≡ true
          → includes (r ∷ s ∷ refs) x ≡ true
      inserted negative later j = j
      inserted same later j = j
      inserted positive later j = ground arith

  includes-sort_connections :
      (m : Manager) (refs : List ℕ) (x : ℕ)
      → includes (sort_connections locale_compare m refs) x ≡ true
      → includes refs x ≡ true
  unfolding sort_connections
  includes-sort_connections m [] x i = i
  includes-sort_connections m (r ∷ refs) x i = ground (
    arith,
    includes-insert_connection m r (sort_connections locale_compare m refs) x i,
    includes-sort_connections m refs x,
  )

-- `checkConnections` leaves what `checkPrioritizedConnections` leaves.
pub check_connections-connects :
    (locale_compare : Option Text → Option Text → Sign) (answers : ℕ → HttpReply × ℕ)
    (in_order : List ℕ → List ℕ) (m : Manager)
    → SettlesStarted in_order
    → IsServing m
    → (m' : Manager) × (found : Bool) × (check_connections locale_compare answers in_order m
        ≡ ok (m', found))
      × Follows m m'
      × IsConnectedIfAny m'
unfolding check_connections get_connections
check_connections-connects locale_compare answers in_order m o s =
    check_connections_aux-connects answers in_order m (get_connections locale_compare m) [] o s
      (includes-sort_connections locale_compare answers m m.connections)

-- Without a connection `checkConnectionPromises` throws the error of the pool's constructor.
pub check_connection_promises-empty :
    (locale_compare : Option Text → Option Text → Sign) (answers : ℕ → HttpReply × ℕ)
    (in_order : List ℕ → List ℕ) (m : Manager)
    → m.connections ≡ []
    → (e : PoolError) × (check_connection_promises locale_compare answers in_order m ≡ err e)
unfolding check_connection_promises new_pool
check_connection_promises-empty locale_compare answers in_order m none_managed = (
  max_concurrency_too_small,
  ap
      (λ refs. new_pool (some (length refs)) >>= (λ pool.
        ok (all_checked locale_compare answers m (in_order (get_connections locale_compare m)))))
      none_managed,
)
