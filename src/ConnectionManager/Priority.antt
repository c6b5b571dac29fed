-- ===== src/ConnectionManager/Priority.antt =====
-- `getConnectionsInAscendingPriority` and `comparePriorities` of MoneroConnectionManager.ts.
pub mod Groups
pub mod Ranked
use qwertycoin_ts.Common.{
  ℕ, ◌-◌, Bool, true, false, ◌||◌, List, [], ◌∷◌, ◌++◌, map, leb, ◌==◌, if◌then◌else◌,
}
use qwertycoin_ts.RpcConnection.{RpcConnection}
use qwertycoin_ts.ConnectionManager.{Manager}

-- An entry of the `Map` from priorities to connections.
abbrev pub Entry : Type 0
Entry = ℕ × List ℕ

-- `set(p, [])` if there is no such key, then `get(p).push(r)`.
unfoldable pub add_to_group : ℕ → ℕ → List Entry → List Entry
add_to_group p r [] = (p, r ∷ []) ∷ []
add_to_group p r ((q, rs) ∷ es) =
    let later = add_to_group p r es in if q == p then (q, rs ++ r ∷ []) ∷ es else (q, rs) ∷ later

unfoldable pub group_by_priority : (ℕ → RpcConnection) → List Entry → List ℕ → List Entry
group_by_priority heap es [] = es
group_by_priority heap es (r ∷ refs) =
    group_by_priority heap (add_to_group (heap r).priority r es) refs

abbrev pub has_key : ℕ → List Entry → Bool
has_key p [] = false
has_key p (e ∷ es) = (e.0 == p) || has_key p es

-- The entries sorted by their keys, which are distinct.
unfoldable pub insert_entry : Entry → List Entry → List Entry
insert_entry e [] = e ∷ []
insert_entry e (f ∷ fs) =
    let later = insert_entry e fs in if leb e.0 f.0 then e ∷ f ∷ fs else f ∷ later

unfoldable pub sort_entries : List Entry → List Entry
sort_entries [] = []
sort_entries (e ∷ es) = insert_entry e (sort_entries es)

-- `push(splice(0, 1)[0])`
abbrev pub first_to_end {ℓ} : {A : Type ℓ} → List A → List A
first_to_end [] = []
first_to_end (a ∷ xs) = xs ++ a ∷ []

abbrev pub values : List Entry → List (List ℕ)
values es = map (λ e. e.1) es

unfoldable pub get_connections_in_ascending_priority : Manager → List (List ℕ)
get_connections_in_ascending_priority m =
    let priorities = group_by_priority m.heap [] m.connections in
    let ascending = values (sort_entries priorities) in
    if has_key 0 priorities then first_to_end ascending else ascending
