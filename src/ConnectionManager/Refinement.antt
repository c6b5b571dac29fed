-- ===== src/ConnectionManager/Refinement.antt =====
-- A connection manager (MoneroConnectionManager.ts) as a map from URIs to connections: the order of
-- the list, the removal and the search are forgotten.
pub mod Lookup
pub mod Steps
pub mod Simulation
use qwertycoin_ts.Common.{
  ℕ, ◌<◌, ◌≡◌, ◌≢◌, refl, sym, ap, ◌∙◌, subst, Bool, true, false, List, [], ◌∷◌, ◌++◌, Option, none,
  some, arith, Text, same_num, Bool-cases, Option-cases, inl, inr, if◌then◌else◌,
}
use qwertycoin_ts.Common.Result.{Result, ok, err}
use qwertycoin_ts.GenUtils.Arrays.{without}
use qwertycoin_ts.RpcConnection.{RpcConnection, set_proxy_to_worker}
use qwertycoin_ts.ConnectionManager.{
  Manager, ManagerError, uri_exists, no_connection_with_uri, missing_uri, add_connection,
  remove_connection, remove_ref, set_connection, set_object, replace_connection, install,
  set_nothing, nothing, object, disconnect, clear, find_uri, update, uri_of, has_text,
  get_connection_by_uri, on_connection_changed,
}
use qwertycoin_ts.ConnectionManager.Uris.{
  remove_distinct, IsFree-of_find_uri, find_uri_of_IsFree, IsFree-without_found,
}
use qwertycoin_ts.ConnectionManager.Invariant.{
  IsValid, IsOk, IsValid-of_ok, added, add_connection_free,
}
use qwertycoin_ts.ConnectionManager.Runs.{
  Operation, adds, removes, sets, disconnects, clears, apply, apply-IsOk,
}
use qwertycoin_ts.ConnectionManager.Refinement.Lookup.{
  put, update-uri, find_uri-heap, find_uri-put, find_uri-delete,
}

-- The abstract state: which connection has a URI, and the current connection.
pub record Book : Type 0 where
  pub entries : Option Text → Option ℕ
  pub current : Option ℕ

-- The calls with a connection object or a URI.
pub data Call : Type 0 where
  adding selecting : ℕ → Call
  removing : Option Text → Call
  deselect clear_all : Call

abbrev pub operation : Call → Operation
operation (adding r) = adds r
operation (selecting r) = sets (object r)
operation (removing uri) = removes uri
operation deselect = disconnects
operation clear_all = clears

abbrev pub add_in : Book → Option Text → ℕ → Option ℕ → Result ManagerError Book
add_in b uri r none = ok (record b { entries = put uri (some r) b.entries })
add_in b uri r (some p) = err uri_exists

abbrev pub remove_in : Book → Option Text → Option ℕ → Result ManagerError Book
remove_in b uri none = err no_connection_with_uri
remove_in b uri (some p) = ok (record {
  entries = put uri none b.entries;
  current = if same_num b.current (some p) then none else b.current;
})

abbrev pub select_in : Book → Option Text → ℕ → Result ManagerError Book
select_in b uri r =
    if same_num b.current (some r)
    then ok b
    else if has_text uri
    then ok (record { entries = put uri (some r) b.entries; current = some r })
    else err missing_uri

-- What a call does to the abstract state, given the URIs of the connection objects.
unfoldable pub specified : (ℕ → Option Text) → Book → Call → Result ManagerError Book
specified uris b (adding r) = add_in b (uris r) r (b.entries (uris r))
specified uris b (selecting r) = select_in b (uris r) r
specified uris b (removing uri) = remove_in b uri (b.entries uri)
specified uris b deselect = ok (record b { current = none })
specified uris b clear_all = ok (record { entries = λ u. none; current = none })

-- A manager that the abstract state describes.
pub record Refines (uris : ℕ → Option Text) (next : ℕ) (b : Book) (m : Manager) : Type 0 where
  pub finds : (u : Option Text) → find_uri m.heap m.connections u ≡ b.entries u
  pub current : m.current_connection ≡ b.current
  pub uris_kept : (r : ℕ) → uri_of m r ≡ uris r
  pub next_kept : m.next_ref ≡ next

-- Both calls throw the same error, or both succeed and are related again.
abbrev pub RefinesResult :
    (ℕ → Option Text) → ℕ → Result ManagerError Book → Result ManagerError Manager → Type 0
RefinesResult uris next (ok b) (ok m) = Refines uris next b m
RefinesResult uris next (err e) (err f) = e ≡ f
RefinesResult uris next (ok b) (err f) = ⊥
RefinesResult uris next (err e) (ok m) = ⊥

-- The state that is described by what the manager finds.
abbrev pub book_of : Manager → Book
book_of m = record { entries = find_uri m.heap m.connections; current = m.current_connection }
