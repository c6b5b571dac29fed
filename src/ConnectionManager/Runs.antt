-- ===== src/ConnectionManager/Runs.antt =====
-- Every sequence of operations of a manager (MoneroConnectionManager.ts).
use qwertycoin_ts.Common.{
  ℕ, suc, ◌<◌, ◌≡◌, Bool, true, List, [], ◌∷◌, Option, none, some, arith, Text, Option-cases,
  Bool-cases, includes, subst, sym, inl, inr,
}
use qwertycoin_ts.Common.Result.{Result, ok, err}
use qwertycoin_ts.GenUtils.Arrays.{remove}
use qwertycoin_ts.RpcConnection.{RpcConnection, ConnectionError, from_uri, from_config}
use qwertycoin_ts.ConnectionManager.{
  Manager, ManagerError, new_manager, add_listener, remove_listener, remove_listeners,
  add_connection, remove_connection, set_connection, set_nothing, Target, nothing, by_uri, object,
  config, disconnect, clear, reset_manager, find_uri, update, allocate, set_found, set_new,
}
use qwertycoin_ts.ConnectionManager.Uris.{
  IsAllocated, find_uri_found, HasDistinctUris-KeepsUris, KeepsUris-update_fresh,
}
use qwertycoin_ts.ConnectionManager.Invariant.{
  IsValid, IsOk, IsListed, add_connection-IsOk, remove_connection-IsOk, IsValid-of_ok,
}
use qwertycoin_ts.ConnectionManager.Operations.{set_object-IsOk}

pub data Operation : Type 0 where
  adds : ℕ → Operation
  removes : Option Text → Operation
  sets : Target → Operation
  disconnects clears resets : Operation
  adds_listener removes_listener : ℕ → Operation
  removes_listeners : Operation

unfoldable pub apply : Manager → Operation → Result ManagerError Manager
apply m (adds r) = add_connection m r
apply m (removes uri) = remove_connection m uri
apply m (sets target) = set_connection m target
apply m disconnects = ok (disconnect m)
apply m clears = ok (clear m)
apply m resets = ok (reset_manager m)
apply m (adds_listener l) = ok (add_listener m l)
apply m (removes_listener l) = remove_listener m l
apply m removes_listeners = ok (remove_listeners m)

-- A connection object that is passed in exists.
abbrev pub IsGiven : Manager → Operation → Type 0
IsGiven m (adds r) = r < m.next_ref
IsGiven m (sets (object r)) = r < m.next_ref
IsGiven m (sets nothing) = Unit
IsGiven m _ = Unit

pub data Reach (m : Manager) : Manager → Type 0 where
  here : Reach m m
  next :
      {m' m'' : Manager}
      → Reach m m'
      → (o : Operation) → IsGiven m' o
      → apply m' o ≡ ok m''
      → Reach m m''

IsAllocated-suc : (n : ℕ) (refs : List ℕ) → IsAllocated n refs → IsAllocated (suc n) refs
IsAllocated-suc n [] a = tt
IsAllocated-suc n (r ∷ refs) a = (omega arith, IsAllocated-suc n refs a.1)

allocate-IsValid : (m : Manager) (c : RpcConnection) → IsValid m → IsValid (allocate m c)
allocate-IsValid m c v = record {
  distinct =
      HasDistinctUris-KeepsUris m.heap (update m.heap m.next_ref c) m.connections
        (KeepsUris-update_fresh m.heap m.next_ref c m.connections v.allocated) v.distinct;
  allocated = IsAllocated-suc m.next_ref m.connections v.allocated;
  current = v.current;
}

pub IsAllocated-includes :
    (n : ℕ) (refs : List ℕ) (r : ℕ) → IsAllocated n refs → includes refs r ≡ true → r < n
IsAllocated-includes n [] r a h = cc
IsAllocated-includes n (x ∷ refs) r a h = ground (arith, IsAllocated-includes n refs r a.1)

set_new-IsOk :
    (m : Manager) (c : Result ConnectionError RpcConnection) → IsValid m → IsOk (set_new m c)
unfolding set_new
set_new-IsOk m (ok c) v =
    set_object-IsOk (allocate m c) m.next_ref (allocate-IsValid m c v) (omega arith)
set_new-IsOk m (err e) v = tt

set_nothing-IsValid : (m : Manager) → IsValid m → IsValid (set_nothing m)
unfolding set_nothing
set_nothing-IsValid m v = elim (Option-cases m.current_connection) [
  | inl e ↦ rw (e, set_nothing) v
  | inr (r, e) ↦
      rw (e, set_nothing) (record { distinct = v.distinct; allocated = v.allocated; current = tt })
]

clear-IsValid : (m : Manager) → IsValid m → IsValid (clear m)
unfolding clear
clear-IsValid m v = elim (Option-cases m.current_connection) [
  | inl e ↦
      rw (e, clear)
        (record { distinct = tt; allocated = tt; current = subst (IsListed []) (sym e) tt })
  | inr (r, e) ↦ rw (e, clear) (record { distinct = tt; allocated = tt; current = tt })
]

set_found-IsOk :
    (m : Manager) (uri : Text)
    → IsValid m
    → IsOk (set_found m uri (find_uri m.heap m.connections (some uri)))
unfolding set_found
set_found-IsOk m uri v = elim (Option-cases (find_uri m.heap m.connections (some uri))) [
  | inl free ↦ rw (free, set_found) (set_new-IsOk m (from_uri uri none none) v)
  | inr (p, taken) ↦
      let found = find_uri_found m.heap m.connections (some uri) taken in
      rw (taken, set_found)
        (set_object-IsOk m p v
          (IsAllocated-includes m.next_ref m.connections p v.allocated found.0))
]

set_connection-IsOk :
    (m : Manager) (t : Target) → IsValid m → IsGiven m (sets t) → IsOk (set_connection m t)
unfolding set_connection
set_connection-IsOk m nothing v g = set_nothing-IsValid m v
set_connection-IsOk m (by_uri []) v g = record {
  distinct = v.distinct;
  allocated = v.allocated;
  current = tt;
}
set_connection-IsOk m (by_uri (c ∷ s)) v g = set_found-IsOk m (c ∷ s) v
set_connection-IsOk m (object r) v g = set_object-IsOk m r v g
set_connection-IsOk m (config c) v g = set_new-IsOk m (from_config c none none) v

remove_listener-IsOk : (m : Manager) (l : ℕ) → IsValid m → IsOk (remove_listener m l)
unfolding remove_listener
remove_listener-IsOk m l v = elim (Bool-cases (remove m.listeners l).1) [
  | inl e ↦ rw e (record { distinct = v.distinct; allocated = v.allocated; current = v.current })
  | inr e ↦ rw e tt
]

reset_manager-IsValid : (m : Manager) → IsValid m → IsValid (reset_manager m)
unfolding reset_manager remove_listeners
reset_manager-IsValid m v =
    let c =
      clear-IsValid (record m { listeners = [] })
        (record { distinct = v.distinct; allocated = v.allocated; current = v.current }) in
    record { distinct = c.distinct; allocated = c.allocated; current = c.current }

pub apply-IsOk : (m : Manager) (o : Operation) → IsValid m → IsGiven m o → IsOk (apply m o)
unfolding apply disconnect add_listener remove_listeners
apply-IsOk m (adds r) v g = add_connection-IsOk m r v g
apply-IsOk m (removes uri) v g = remove_connection-IsOk m uri v
apply-IsOk m (sets t) v g = set_connection-IsOk m t v g
apply-IsOk m disconnects v g = set_nothing-IsValid m v
apply-IsOk m clears v g = clear-IsValid m v
apply-IsOk m resets v g = reset_manager-IsValid m v
apply-IsOk m (adds_listener l) v g = record {
  distinct = v.distinct;
  allocated = v.allocated;
  current = v.current;
}
apply-IsOk m (removes_listener l) v g = remove_listener-IsOk m l v
apply-IsOk m removes_listeners v g = record {
  distinct = v.distinct;
  allocated = v.allocated;
  current = v.current;
}

-- Every sequence of successful operations on a new manager leaves it valid: no two managed
-- connections share a URI, each is an existing object, and the current connection, if there is
-- one, is managed.
pub Reach-IsValid :
    (heap : ℕ → RpcConnection) (next_ref : ℕ) (proxy : Bool) {m : Manager}
    → Reach (new_manager heap next_ref proxy) m
    → IsValid m
unfolding new_manager
Reach-IsValid heap next_ref proxy here = record { distinct = tt; allocated = tt; current = tt }
Reach-IsValid heap next_ref proxy (next {m' = m'} r o g e) =
    IsValid-of_ok (apply m' o) (apply-IsOk m' o (Reach-IsValid heap next_ref proxy r) g) e
