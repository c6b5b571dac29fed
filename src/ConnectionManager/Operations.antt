-- ===== src/ConnectionManager/Operations.antt =====
-- `setConnection` and the other operations of a manager (MoneroConnectionManager.ts), and every
-- sequence of operations.
use qwertycoin_ts.Common.{
  ℕ, ◌<◌, ◌≡◌, refl, true, some, same_num, same_num_iff, Bool-cases, Option-cases, inl, inr,
}
use qwertycoin_ts.Common.Result.{ok}
use qwertycoin_ts.GenUtils.Arrays.{without}
use qwertycoin_ts.ConnectionManager.{
  Manager, set_connection, set_object, object, find_uri, uri_of, replace_connection, install,
  on_connection_changed, has_text,
}
use qwertycoin_ts.ConnectionManager.Uris.{
  IsFree, IsFree-of_find_uri, HasDistinctUris-without, IsFree-without_found, remove_distinct,
}
use qwertycoin_ts.ConnectionManager.Invariant.{
  IsValid, IsOk, IsReady, ready, added, added-IsReady, add_connection_free, IsAllocated-without,
  includes-append_last,
}

-- Making a connection current over managed connections of which none has its URI.
install-IsOk :
    (b : Manager) (r : ℕ)
    → IsReady b
    → r < b.next_ref
    → IsFree b.heap (uri_of b r) b.connections
    → IsOk (install b r)
unfolding install
install-IsOk b r v h f =
    let after = added-IsReady b r v h f in
    rw (add_connection_free b r f) (record {
      distinct = after.distinct;
      allocated = after.allocated;
      current = includes-append_last b.connections r;
    })

-- The manager then.
abbrev pub installed : Manager → ℕ → Manager
installed b r = on_connection_changed (record (added b r) { current_connection = some r }) (some r)

pub install_ok :
    (b : Manager) (r : ℕ)
    → IsFree b.heap (uri_of b r) b.connections
    → install b r ≡ ok (installed b r)
unfolding install
install_ok b r f = rw (add_connection_free b r f)

-- What an addition needs still holds once a connection is removed.
previous-IsReady :
    (m : Manager) (p : ℕ) → IsValid m → IsReady (record m { connections = without p m.connections })
previous-IsReady m p v = record {
  distinct = HasDistinctUris-without m.heap p m.connections v.distinct;
  allocated = IsAllocated-without m.next_ref p m.connections v.allocated;
}

module _ (m : Manager) (r : ℕ) (v : IsValid m) (h : r < m.next_ref) where
  replace_connection-IsOk : IsOk (replace_connection m r)
  unfolding replace_connection
  replace_connection-IsOk = elim (Bool-cases (has_text (uri_of m r))) [
    | inr no_uri ↦ rw no_uri tt
    | inl has_uri ↦ elim (Option-cases (find_uri m.heap m.connections (uri_of m r))) [
      | inl free ↦
          rw (has_uri, free)
            (install-IsOk m r (ready m v) h
              (IsFree-of_find_uri m.heap m.connections (uri_of m r) free))
      | inr (p, taken) ↦
          rw (has_uri, taken, remove_distinct m.heap p m.connections v.distinct)
            (install-IsOk (record m { connections = without p m.connections }) r
              (previous-IsReady m p v) h
              (IsFree-without_found m.heap (uri_of m r) p m.connections v.distinct taken))
    ]
  ]

  pub set_object-IsOk : IsOk (set_object m r)
  unfolding set_object
  set_object-IsOk = elim (Bool-cases (same_num m.current_connection (some r))) [
    | inl same ↦ rw same v
    | inr other ↦ rw other replace_connection-IsOk
  ]

-- Making an existing connection with a URI current always succeeds in a valid manager, the
-- duplicate check of `addConnection` included: the connection is then the current one, is managed,
-- and is the only managed connection with its URI.
pub set_connection-succeeds :
    (m : Manager) (r : ℕ)
    → IsValid m
    → r < m.next_ref
    → has_text (uri_of m r) ≡ true
    → (m' : Manager) × (set_connection m (object r) ≡ ok m')
      × (m'.current_connection ≡ some r)
      × IsValid m'
unfolding set_connection set_object replace_connection
set_connection-succeeds m r v h u = elim (Bool-cases (same_num m.current_connection (some r))) [
  | inl same ↦ (m, rw same, (same_num_iff _ _).0 same, v)
  | inr other ↦ elim (Option-cases (find_uri m.heap m.connections (uri_of m r))) [
    | inl free ↦
        let f = IsFree-of_find_uri m.heap m.connections (uri_of m r) free in
        (
          installed m r,
          rw (other, u, free, install_ok m r f),
          refl,
          rw (install_ok m r f) at (install-IsOk m r (ready m v) h f),
        )
    | inr (p, taken) ↦
        let b = record m { connections = without p m.connections } in
        let f = IsFree-without_found m.heap (uri_of m r) p m.connections v.distinct taken in
        let s = previous-IsReady m p v in
        (
          installed b r,
          rw (other, u, taken, remove_distinct m.heap p m.connections v.distinct, install_ok b r f),
          refl,
          rw (install_ok b r f) at (install-IsOk b r s h f),
        )
  ]
]
