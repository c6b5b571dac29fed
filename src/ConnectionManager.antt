-- ===== src/ConnectionManager.antt =====
-- src/main/ts/common/MoneroConnectionManager.ts. A connection is an object that several variables
-- share and that checks mutate, so connections live in a heap, under the number that stands for
-- their identity. A call of `onConnectionChanged` is an entry of `notified` for each listener.
pub mod Uris
pub mod Invariant
pub mod Operations
pub mod Runs
pub mod Refinement
pub mod Checks
pub mod Polling
pub mod Priority
pub mod Responses
pub mod Sorting
use qwertycoin_ts.Common.{
  ℕ, suc, ◌+◌, ◌≡◌, Bool, true, false, not, List, [], ◌∷◌, ◌++◌, map, Option, none, some, ltb, ◌==◌,
  if◌then◌else◌, same_num, Text, same_text,
}
use qwertycoin_ts.Common.Result.{Result, ok, err, ◌>>=◌}
use qwertycoin_ts.GenUtils.Arrays.{remove}
use qwertycoin_ts.RpcConnection.{
  RpcConnection, ConnectionError, set_proxy_to_worker, from_uri, from_config, is_connected,
}

pub data ManagerError : Type 0 where
  uri_exists no_connection_with_uri missing_uri no_listener invalid_connection not_a_function :
      ManagerError

pub record Manager : Type 0 where
  pub heap : ℕ → RpcConnection
  pub next_ref : ℕ
  pub proxy_to_worker : Bool
  pub timeout_ms : ℕ
  pub auto_switch : Bool
  pub connections : List ℕ
  -- A `Map` from URIs to response times, latest first, in the order of insertion.
  pub response_times : List (Option Text × List (Option ℕ))
  pub listeners : List ℕ
  pub current_connection : Option ℕ
  pub notified : List (ℕ × Option ℕ)

abbrev pub default_timeout : ℕ
default_timeout = 5000

-- The constructor, over the connection objects that exist already.
unfoldable pub new_manager : (ℕ → RpcConnection) → ℕ → Bool → Manager
new_manager heap next_ref proxy = record {
  heap = heap;
  next_ref = next_ref;
  proxy_to_worker = proxy;
  timeout_ms = default_timeout;
  auto_switch = true;
  connections = [];
  response_times = [];
  listeners = [];
  current_connection = none;
  notified = [];
}

abbrev pub update : (ℕ → RpcConnection) → ℕ → RpcConnection → ℕ → RpcConnection
update heap ref c r = if r == ref then c else heap r

abbrev pub uri_of : Manager → ℕ → Option Text
uri_of m r = (m.heap r).uri

unfoldable pub add_listener : Manager → ℕ → Manager
add_listener m l = record m { listeners = m.listeners ++ l ∷ [] }

unfoldable pub remove_listener : Manager → ℕ → Result ManagerError Manager
remove_listener m l =
    let (rest, found) = remove m.listeners l in
    if found then ok (record m { listeners = rest }) else err no_listener

unfoldable pub remove_listeners : Manager → Manager
remove_listeners m = record m { listeners = [] }

abbrev pub on_connection_changed : Manager → Option ℕ → Manager
on_connection_changed m c = record m { notified = m.notified ++ map (λ l. (l, c)) m.listeners }

-- The loop of `getConnectionByUri`.
unfoldable pub find_uri : (ℕ → RpcConnection) → List ℕ → Option Text → Option ℕ
find_uri heap [] uri = none
find_uri heap (r ∷ refs) uri =
    let later = find_uri heap refs uri in if same_text (heap r).uri uri then some r else later

unfoldable pub get_connection_by_uri : Manager → Option Text → Option ℕ
unfolding find_uri
get_connection_by_uri m uri = find_uri m.heap m.connections uri

abbrev is_some : Option ℕ → Bool
is_some none = false
is_some (some _) = true

unfoldable pub has_connection : Manager → Option Text → Bool
unfolding get_connection_by_uri
has_connection m uri = is_some (get_connection_by_uri m uri)

-- `addConnection` of a connection object.
unfoldable pub add_connection : Manager → ℕ → Result ManagerError Manager
unfolding has_connection
add_connection m r =
    if has_connection m (uri_of m r)
    then err uri_exists
    else ok (record m {
      heap = update m.heap r (set_proxy_to_worker (m.heap r) m.proxy_to_worker);
      connections = m.connections ++ r ∷ [];
    })

-- `Map.delete`
unfoldable pub delete_times :
    Option Text → List (Option Text × List (Option ℕ)) → List (Option Text × List (Option ℕ))
delete_times uri [] = []
delete_times uri ((k, ts) ∷ times) =
    let rest = delete_times uri times in if same_text k uri then rest else (k, ts) ∷ rest

remove_ref : Manager → ℕ → Manager
remove_ref m r =
    let m' = record m {
      connections = (remove m.connections r).0;
      response_times = delete_times (uri_of m r) m.response_times;
    } in
    if same_num m.current_connection (some r)
    then on_connection_changed (record m' { current_connection = none }) none
    else m'

unfoldable pub remove_connection : Manager → Option Text → Result ManagerError Manager
unfolding get_connection_by_uri remove_ref
remove_connection m uri = elim (get_connection_by_uri m uri) [
  | none ↦ err no_connection_with_uri
  | some r ↦ ok (remove_ref m r)
]

abbrev has_text : Option Text → Bool
has_text none = false
has_text (some []) = false
has_text (some (c ∷ s)) = true

abbrev remove_previous : Manager → Option ℕ → Manager
remove_previous m none = m
remove_previous m (some p) = record m { connections = (remove m.connections p).0 }

-- Add a connection, make it current, and notify.
unfoldable pub install : Manager → ℕ → Result ManagerError Manager
install m r = do
  m' ← add_connection m r
  ok (on_connection_changed (record m' { current_connection = some r }) (some r))

-- `setConnection` of a connection object that is not the current one.
replace_connection : Manager → ℕ → Result ManagerError Manager
unfolding get_connection_by_uri
replace_connection m r =
    if has_text (uri_of m r)
    then install (remove_previous m (get_connection_by_uri m (uri_of m r))) r
    else err missing_uri

-- The argument of `setConnection`: undefined, a URI, a connection object, or a configuration.
pub data Target : Type 0 where
  nothing : Target
  by_uri : Text → Target
  object : ℕ → Target
  config : RpcConnection → Target

unfoldable pub set_object : Manager → ℕ → Result ManagerError Manager
unfolding replace_connection
set_object m r = if same_num m.current_connection (some r) then ok m else replace_connection m r

unfoldable pub set_nothing : Manager → Manager
set_nothing m = elim m.current_connection [
  | none ↦ m
  | some _ ↦ on_connection_changed (record m { current_connection = none }) none
]

-- A new object takes the next free identity.
abbrev allocate : Manager → RpcConnection → Manager
allocate m c = record m { heap = update m.heap m.next_ref c; next_ref = suc m.next_ref }

-- Make a new connection object current, unless its constructor threw.
unfoldable pub set_new :
    Manager → Result ConnectionError RpcConnection → Result ManagerError Manager
unfolding set_object
set_new m (ok c) = set_object (allocate m c) m.next_ref
set_new m (err e) = err invalid_connection

set_found : Manager → Text → Option ℕ → Result ManagerError Manager
unfolding set_object set_new
set_found m uri (some r) = set_object m r
set_found m uri none = set_new m (from_uri uri none none)

unfoldable pub set_connection : Manager → Target → Result ManagerError Manager
unfolding set_found set_new set_nothing get_connection_by_uri
set_connection m nothing = ok (set_nothing m)
set_connection m (by_uri []) =
    ok (on_connection_changed (record m { current_connection = none }) none)
set_connection m (by_uri (c ∷ s)) = set_found m (c ∷ s) (get_connection_by_uri m (some (c ∷ s)))
set_connection m (object r) = set_object m r
set_connection m (config g) = set_new m (from_config g none none)

unfoldable pub disconnect : Manager → Manager
unfolding set_nothing
disconnect m = set_nothing m

unfoldable pub clear : Manager → Manager
clear m = elim m.current_connection [
  | none ↦ record m { connections = [] }
  | some _ ↦ on_connection_changed (record m { connections = []; current_connection = none }) none
]

unfoldable pub reset_manager : Manager → Manager
unfolding clear remove_listeners
reset_manager m = record (clear (remove_listeners m)) {
  timeout_ms = default_timeout;
  auto_switch = true;
}

-- `isConnected` of the manager: false without a current connection, and perhaps undefined.
unfoldable pub manager_connected : Manager → Option Bool
manager_connected m = elim m.current_connection [
  | none ↦ some false
  | some r ↦ is_connected (m.heap r)
]

unfoldable pub set_auto_switch : Manager → Bool → Manager
set_auto_switch m auto_switch = record m { auto_switch = auto_switch }

unfoldable pub set_timeout : Manager → ℕ → Manager
set_timeout m timeout_ms = record m { timeout_ms = timeout_ms }
