-- ===== src/Tests/Manager.antt =====
-- The connection manager at concrete inputs (MoneroConnectionManager.ts).
use qwertycoin_ts.Common.{
  ℕ, zero, suc, ◌≡◌, ◌⊎◌, refl, true, false, [], ◌∷◌, none, some, arith, codes, text_eq, List,
  Option, Text,
}
use qwertycoin_ts.Common.Result.{ok}
use qwertycoin_ts.RpcConnection.{
  HttpReply, reply, thrown, RpcConnection, default_config, is_connected, set_proxy_to_worker,
}
use qwertycoin_ts.ConnectionManager.{
  Manager, new_manager, default_timeout, add_connection, set_connection, object, find_uri, uri_of,
}
use qwertycoin_ts.ConnectionManager.Invariant.{IsValid, added}
use qwertycoin_ts.ConnectionManager.Operations.{set_connection-succeeds}
use qwertycoin_ts.ConnectionManager.Runs.{adds, apply, Reach, here, next, Reach-IsValid}
use qwertycoin_ts.ConnectionManager.Refinement.{Call, adding, selecting, removing, book_of}
use qwertycoin_ts.ConnectionManager.Refinement.Simulation.{
  perform_all, specify_all, perform_all-specify_all,
}
use qwertycoin_ts.ConnectionManager.Checks.{check_prioritized_connections}
use qwertycoin_ts.ConnectionManager.Checks.Switch.{HaveUris, IsServing}
use qwertycoin_ts.ConnectionManager.Checks.Related.{Follows, SettlesStarted, IsConnectedIfAny}
use qwertycoin_ts.ConnectionManager.Checks.Rounds.{check_prioritized_connections-connects}
use qwertycoin_ts.ConnectionManager.Checks.Current.{check_manager_connection}
use qwertycoin_ts.ConnectionManager.Checks.Switching.{check_manager_connection-connects}
use qwertycoin_ts.ConnectionManager.Sorting.{Sign, same, get_connections}
use qwertycoin_ts.ConnectionManager.Sorting.Sorted.{count}
use qwertycoin_ts.ConnectionManager.Sorting.Order.{IsOrdered, get_connections-IsOrdered}
use qwertycoin_ts.ConnectionManager.Polling.{
  PolledManager, all, not_polled, start_polling, PollReach, begins, follows, starts_polling,
  IsWatched, PollReach-IsWatched,
}
use qwertycoin_ts.ConnectionManager.Priority.{get_connections_in_ascending_priority}
use qwertycoin_ts.ConnectionManager.Priority.Ranked.{
  AreRankedGroups, ascending_priority-AreRankedGroups,
}
use qwertycoin_ts.ConnectionManager.Responses.{
  connected, get_best_connection_from_prioritized_responses,
}
use qwertycoin_ts.ConnectionManager.Responses.Best.{IsBest, chosen-IsBest}

-- Two online connections: 0 answers in 30 ms, all others in 10 ms.
abbrev online : ℕ → RpcConnection
online zero = record default_config {
  uri = some (codes "http://a");
  is_online = some true;
  response_time = some 30;
}
online (suc _) = record default_config {
  uri = some (codes "http://b");
  is_online = some true;
  response_time = some 10;
}

abbrev fresh : Manager
fresh = record {
  heap = online;
  next_ref = 2;
  proxy_to_worker = false;
  timeout_ms = default_timeout;
  auto_switch = true;
  connections = [];
  response_times = [];
  listeners = [];
  current_connection = none;
  notified = [];
}

abbrev first_added : Manager
first_added = added fresh 0

abbrev both_added : Manager
both_added = added first_added 1

both-Reach : Reach (new_manager online 2 false) both_added
unfolding new_manager apply add_connection set_proxy_to_worker text_eq
both-Reach = next (next here (adds 0) (omega arith) refl) (adds 1) (omega arith) refl

Reach-IsValid_example : IsValid both_added
Reach-IsValid_example = Reach-IsValid online 2 false both-Reach

both_added-IsValid : IsValid both_added
both_added-IsValid = Reach-IsValid online 2 false both-Reach

set_connection-succeeds_example :
    (m' : Manager) × (set_connection both_added (object 1) ≡ ok m')
    × (m'.current_connection ≡ some 1)
    × IsValid m'
unfolding set_proxy_to_worker
set_connection-succeeds_example =
    set_connection-succeeds both_added 1 both_added-IsValid (omega arith) refl

ascending_priority-AreRankedGroups_example :
    AreRankedGroups both_added (get_connections_in_ascending_priority both_added)
ascending_priority-AreRankedGroups_example = ascending_priority-AreRankedGroups both_added

abbrev current : Manager
current = record fresh { connections = 0 ∷ 1 ∷ []; current_connection = some 0 }

best_is_second : get_best_connection_from_prioritized_responses fresh (0 ∷ 1 ∷ []) ≡ some 1
unfolding get_best_connection_from_prioritized_responses is_connected
best_is_second = refl

chosen-IsBest_example :
    IsBest fresh 1 (0 ∷ 1 ∷ []) ⊎ ((fresh.current_connection ≡ some 1) × (connected fresh 1 ≡ true))
chosen-IsBest_example = chosen-IsBest fresh (0 ∷ 1 ∷ []) tt best_is_second

abbrev measured : Manager
measured = record current {
  response_times =
      (some (codes "http://a"), some 30 ∷ some 30 ∷ some 30 ∷ [])
      ∷ (some (codes "http://b"), some 10 ∷ some 10 ∷ some 10 ∷ [])
      ∷ [];
}

-- The second connection is selected, the first is removed twice and added again.
abbrev calls : List Call
calls =
    selecting 1
    ∷ removing (some (codes "http://a"))
    ∷ removing (some (codes "http://a"))
    ∷ adding 0
    ∷ []

perform_all-specify_all_example :
    ((u : Option Text)
      → find_uri
          (perform_all both_added calls).0.heap
          (perform_all both_added calls).0.connections
          u
        ≡ (specify_all (uri_of both_added) (book_of both_added) calls).0.entries u)
    × ((perform_all both_added calls).0.current_connection
        ≡ (specify_all (uri_of both_added) (book_of both_added) calls).0.current)
    × ((specify_all (uri_of both_added) (book_of both_added) calls).1
        ≡ (perform_all both_added calls).1)
unfolding set_proxy_to_worker
perform_all-specify_all_example =
    perform_all-specify_all both_added calls both_added-IsValid
      (omega arith, (tt, (tt, (omega arith, tt))))

-- The slower connection is the current one.
abbrev selected : Manager
selected = record fresh { connections = 0 ∷ 1 ∷ []; current_connection = some 0 }

selected-HaveUris : HaveUris selected
selected-HaveUris zero i = refl
selected-HaveUris (suc r) i = refl

selected-IsServing : IsServing selected
unfolding set_proxy_to_worker
selected-IsServing = record {
  valid = record {
    distinct = both_added-IsValid.distinct;
    allocated = both_added-IsValid.allocated;
    current = refl;
  };
  uris = selected-HaveUris;
  no_times = tt;
  auto_switches = refl;
}

-- Connection 0 is offline.
abbrev answers : ℕ → HttpReply × ℕ
answers zero = (thrown none, 20)
answers (suc r) = (reply 200 none, 15)

-- The checks settle in the order in which they are started.
abbrev as_started : List ℕ → List ℕ
as_started started = started

as_started-SettlesStarted : SettlesStarted as_started
as_started-SettlesStarted started x i = i

check_prioritized_connections-connects_example :
    (m' : Manager) × (check_prioritized_connections answers as_started selected [] ≡ ok m')
    × Follows selected m'
    × IsConnectedIfAny m'
check_prioritized_connections-connects_example =
    check_prioritized_connections-connects answers as_started selected [] as_started-SettlesStarted
      selected-IsServing

check_manager_connection-connects_example :
    (m' : Manager) × (pending : List ℕ) × (check_manager_connection answers as_started selected
      ≡ ok (m', pending))
    × Follows selected m'
    × IsConnectedIfAny m'
check_manager_connection-connects_example =
    check_manager_connection-connects answers as_started selected 0 as_started-SettlesStarted
      selected-IsServing refl

-- A comparison that tells no texts apart.
abbrev compare_none : Option Text → Option Text → Sign
compare_none a b = same

get_connections-IsOrdered_example :
    IsOrdered compare_none selected (get_connections compare_none selected)
    × ((x : ℕ) → count x (get_connections compare_none selected) ≡ count x (0 ∷ 1 ∷ []))
get_connections-IsOrdered_example = get_connections-IsOrdered compare_none selected (λ a b. tt)

-- Polling is started, and started anew with another period while it goes on.
abbrev polled_once : PolledManager
polled_once = (start_polling (not_polled selected) (some 5000) none none none).0

polled_twice-PollReach :
    PollReach selected (start_polling polled_once none (some false) (some 100) (some all)).0
polled_twice-PollReach =
    follows (follows begins (starts_polling (some 5000) none none none))
      (starts_polling none (some false) (some 100) (some all))

PollReach-IsWatched_example :
    IsWatched (start_polling polled_once none (some false) (some 100) (some all)).0
PollReach-IsWatched_example = PollReach-IsWatched selected polled_twice-PollReach
