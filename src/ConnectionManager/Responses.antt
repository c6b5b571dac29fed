-- ===== src/ConnectionManager/Responses.antt =====
-- `processResponses`, `updateBestConnectionInPriority` and
-- `getBestConnectionFromPrioritizedResponses` of MoneroConnectionManager.ts, with the deep equality
-- of GenUtils.ts on the values that meet there.
pub mod History
pub mod Best
use qwertycoin_ts.Common.{
  ℕ, suc, ◌+◌, Bool, true, false, not, ◌&&◌, ◌||◌, List, [], ◌∷◌, ◌++◌, Option, none, some, ltb,
  ◌==◌, if◌then◌else◌, same_num, same_flag, Text, same_text, length, get_elem?, take,
}
use qwertycoin_ts.Common.Result.{Result, ok, err, ◌>>=◌}
use qwertycoin_ts.RpcConnection.{RpcConnection, is_connected}
use qwertycoin_ts.ConnectionManager.{Manager, ManagerError, not_a_function, uri_of, set_object}
use qwertycoin_ts.ConnectionManager.Priority.{get_connections_in_ascending_priority}

abbrev pub min_better_responses : ℕ
min_better_responses = 3

abbrev pub Times : Type 0
Times = List (Option ℕ)

abbrev pub TimesMap : Type 0
TimesMap = List (Option Text × Times)

-- A value in an array that is searched: undefined, a connection object, or a string.
pub data Item : Type 0 where
  undefined : Item
  connection : ℕ → Item
  string : Text → Item

-- `objectsEqual` on two connection objects. Their mutexes are idle pools, which are equal.
abbrev same_fields : RpcConnection → RpcConnection → Bool
same_fields a b =
    same_text a.uri b.uri
    && same_text a.username b.username
    && same_text a.password b.password
    && same_text a.zmq_uri b.zmq_uri
    && same_text a.proxy_uri b.proxy_uri
    && same_flag (some a.reject_unauthorized) (some b.reject_unauthorized)
    && same_flag (some a.proxy_to_worker) (some b.proxy_to_worker)
    && a.priority == b.priority
    && same_num a.timeout_ms b.timeout_ms
    && same_flag a.is_online b.is_online
    && same_flag a.is_authenticated b.is_authenticated
    && same_num a.response_time b.response_time
    && same_flag (some a.fake_disconnected) (some b.fake_disconnected)

-- `arr[i] === obj || GenUtils.equals(arr[i], obj)`
same_item : (ℕ → RpcConnection) → Item → Item → Bool
same_item heap undefined undefined = true
same_item heap (connection r) (connection s) = (r == s) || same_fields (heap r) (heap s)
same_item heap (string s) (string t) = same_text (some s) (some t)
same_item heap _ _ = false

unfoldable pub array_contains : (ℕ → RpcConnection) → List Item → Item → Bool
unfolding same_item
array_contains heap [] obj = false
array_contains heap (x ∷ xs) obj = same_item heap x obj || array_contains heap xs obj

abbrev pub connection_items : List ℕ → List Item
connection_items [] = []
connection_items (r ∷ refs) = connection r ∷ connection_items refs

unfoldable pub times_of : TimesMap → Option Text → Option Times
times_of [] uri = none
times_of ((k, ts) ∷ times) uri =
    let later = times_of times uri in if same_text k uri then some ts else later

abbrev pub has_times : TimesMap → Option Text → Bool
has_times times uri = elim (times_of times uri) [ none ↦ false | some _ ↦ true ]

-- The first loop of `processResponses`: an empty list for each new URI.
unfoldable pub add_new : Manager → TimesMap → List ℕ → TimesMap
add_new m times [] = times
add_new m times (r ∷ refs) =
    add_new m (if has_times times (uri_of m r) then times else times ++ (uri_of m r, []) ∷ []) refs

-- A key of the map as a value: it is a URI.
abbrev key_item : Option Text → Item
key_item none = undefined
key_item (some uri) = string uri

-- The `forEach` callback names the key `connection`. A string or undefined has no method
-- `getResponseTime`, so a key that is found among the responses throws.
latest : Manager → List ℕ → Option Text → Result ManagerError (Option ℕ)
latest m responses key =
    if array_contains m.heap (connection_items responses) (key_item key)
    then err not_a_function
    else ok none

-- `pop`
abbrev pop : Times → Times
pop [] = []
pop (t ∷ []) = []
pop (t ∷ u ∷ ts) = t ∷ pop (u ∷ ts)

abbrev pub shorten : Times → Times
shorten ts = if ltb min_better_responses (length ts) then pop ts else ts

-- `unshift` on every list of the map, and `pop` if it is longer than three.
unfoldable pub insert_times : Manager → List ℕ → TimesMap → Result ManagerError TimesMap
unfolding latest
insert_times m responses [] = ok []
insert_times m responses ((k, ts) ∷ times) = do
  t ← latest m responses k
  rest ← insert_times m responses times
  ok ((k, shorten (t ∷ ts)) ∷ rest)

-- `a < b` on numbers that may be undefined.
abbrev lt_time : Option ℕ → Option ℕ → Bool
lt_time (some a) (some b) = ltb a b
lt_time _ _ = false

abbrev pub connected : Manager → ℕ → Bool
connected m r = same_flag (is_connected (m.heap r)) (some true)

-- The best response so far is replaced by a faster one.
unfoldable pub best_response : Manager → Option ℕ → List ℕ → Option ℕ
best_response m best [] = best
best_response m none (r ∷ refs) = best_response m (if connected m r then some r else none) refs
best_response m (some b) (r ∷ refs) =
    best_response m
      (if connected m r && lt_time (m.heap r).response_time (m.heap b).response_time
        then some r
        else some b)
      refs

-- `this.responseTimes.get(uri)[i]`, where a missing entry is undefined.
abbrev pub time_at : TimesMap → Option Text → ℕ → Option ℕ
time_at times uri i = elim (times_of times uri) [
  | none ↦ none
  | some ts ↦ elim (get_elem? ts i) [ none ↦ none | some t ↦ t ]
]

-- A defined time other than 0 counts as true.
abbrev truthy : Option ℕ → Bool
truthy none = false
truthy (some t) = not (t == 0)

abbrev is_undefined : Option ℕ → Bool
is_undefined none = true
is_undefined (some t) = false

-- The condition under which round `i` finds the connection not better.
abbrev not_better_at : TimesMap → Option Text → Option Text → ℕ → Bool
not_better_at times uri best i =
    is_undefined (time_at times uri i)
    || truthy (time_at times best i)
    || lt_time (time_at times best i) (time_at times uri i)

unfoldable pub is_better : TimesMap → Option Text → Option Text → Bool
is_better times uri best = not (
    not_better_at times uri best 0
    || not_better_at times uri best 1
    || not_better_at times uri best 2)

abbrev enough : Option Times → Bool
enough none = false
enough (some ts) = not (ltb (length ts) min_better_responses)

-- The last loop.
unfoldable pub consistently_better : Manager → ℕ → List ℕ → ℕ
unfolding is_better
consistently_better m best [] = best
consistently_better m best (r ∷ refs) =
    consistently_better m
      (if not (r == best)
          && enough (times_of m.response_times (uri_of m r))
          && is_better m.response_times (uri_of m r) (uri_of m best)
        then r
        else best)
      refs

-- Given the best response and the current connection.
choose_best : Manager → List ℕ → ℕ → Option ℕ → ℕ
choose_best m responses best none = best
choose_best m responses best (some c) =
    let keep = consistently_better m c responses in
    if not (connected m c)
    then best
    else if not ((m.heap best).priority == (m.heap c).priority)
    then best
    else if not (has_times m.response_times (uri_of m c))
    then c
    else keep

unfoldable pub get_best_connection_from_prioritized_responses : Manager → List ℕ → Option ℕ
unfolding choose_best best_response consistently_better
get_best_connection_from_prioritized_responses m responses = elim (best_response m none responses) [
  | none ↦ none
  | some best ↦ some (choose_best m responses best m.current_connection)
]

-- The loop of `updateBestConnectionInPriority` over the groups.
unfoldable pub update_best_from : Manager → List (List ℕ) → Result ManagerError (Manager × Option ℕ)
update_best_from m [] = ok (m, none)
update_best_from m (g ∷ groups) =
    let rest = update_best_from m groups in
    elim (get_best_connection_from_prioritized_responses m g) [
      | none ↦ rest
      | some r ↦ set_object m r >>= (λ m'. ok (m', some r))
    ]

unfoldable pub update_best_connection_in_priority :
    Manager → Result ManagerError (Manager × Option ℕ)
unfolding update_best_from
update_best_connection_in_priority m =
    if m.auto_switch
    then update_best_from m (get_connections_in_ascending_priority m)
    else ok (m, none)

-- The response times after the two loops of `processResponses`.
unfoldable pub record_times : Manager → List ℕ → Result ManagerError Manager
unfolding add_new insert_times
record_times m responses = do
  times ← insert_times m responses (add_new m m.response_times responses)
  ok (record m { response_times = times })

unfoldable pub process_responses : Manager → List ℕ → Result ManagerError (Manager × Option ℕ)
unfolding record_times
process_responses m responses = do
  m' ← record_times m responses
  update_best_connection_in_priority m'
