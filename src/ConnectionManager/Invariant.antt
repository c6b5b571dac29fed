-- ===== src/ConnectionManager/Invariant.antt =====
-- The operations of a manager (MoneroConnectionManager.ts) keep its connections well formed.
use qwertycoin_ts.Common.{
  ℕ, ◌<◌, ◌≡◌, refl, true, false, not, ◌&&◌, List, [], ◌∷◌, ◌++◌, Option, none, some, arith,
  All-append, includes, includes-append, ◌==◌, same_num, Text, Bool-cases, Option-cases, inl, inr,
  subst,
}
use qwertycoin_ts.Common.Result.{Result, ok, err}
use qwertycoin_ts.GenUtils.Arrays.{without}
use qwertycoin_ts.RpcConnection.{set_proxy_to_worker}
use qwertycoin_ts.ConnectionManager.{
  Manager, ManagerError, uri_exists, add_connection, remove_connection, find_uri, update, uri_of,
  get_connection_by_uri, remove_ref,
}
use qwertycoin_ts.ConnectionManager.Uris.{
  HasDistinctUris, IsAllocated, IsFree, IsFree-of_find_uri, find_uri_of_IsFree,
  HasDistinctUris-append, HasDistinctUris-without, remove_distinct, HasDistinctUris-KeepsUris,
  KeepsUris-update,
}

abbrev pub IsListed : List ℕ → Option ℕ → Type 0
IsListed refs none = Unit
IsListed refs (some r) = includes refs r ≡ true

pub record IsValid (m : Manager) : Type 0 where
  -- No two managed connections share a URI.
  pub distinct : HasDistinctUris m.heap m.connections
  -- The managed connections are existing objects.
  pub allocated : IsAllocated m.next_ref m.connections
  -- The current connection is managed.
  pub current : IsListed m.connections m.current_connection

pub IsAllocated-without :
    (next p : ℕ) (refs : List ℕ) → IsAllocated next refs → IsAllocated next (without p refs)
IsAllocated-without next p [] a = tt
IsAllocated-without next p (r ∷ refs) a = ground (arith, IsAllocated-without next p refs a.1)

pub includes-without :
    (p : ℕ) (refs : List ℕ) (r : ℕ)
    → includes (without p refs) r ≡ (not (r == p) && includes refs r)
includes-without p [] r = ground arith
includes-without p (x ∷ refs) r = ground (arith, includes-without p refs r)

includes-append_left :
    (refs : List ℕ) (r c : ℕ) → includes refs c ≡ true → includes (refs ++ r ∷ []) c ≡ true
includes-append_left refs r c h = ground (arith, includes-append refs (r ∷ []) c)

pub includes-append_last : (refs : List ℕ) (r : ℕ) → includes (refs ++ r ∷ []) r ≡ true
includes-append_last refs r = ground (arith, includes-append refs (r ∷ []) r)

IsListed-append :
    (refs : List ℕ) (r : ℕ) (c : Option ℕ) → IsListed refs c → IsListed (refs ++ r ∷ []) c
IsListed-append refs r none h = tt
IsListed-append refs r (some c) h = includes-append_left refs r c h

-- The manager after an addition that succeeds.
abbrev pub added : Manager → ℕ → Manager
added m r = record m {
  heap = update m.heap r (set_proxy_to_worker (m.heap r) m.proxy_to_worker);
  connections = m.connections ++ r ∷ [];
}

abbrev pub IsOk : Result ManagerError Manager → Type 0
IsOk (ok m) = IsValid m
IsOk (err e) = Unit

pub IsValid-of_ok :
    (result : Result ManagerError Manager) {m : Manager} → IsOk result → result ≡ ok m → IsValid m
IsValid-of_ok result h e = subst IsOk e h

pub add_connection_free :
    (m : Manager) (r : ℕ)
    → IsFree m.heap (uri_of m r) m.connections
    → add_connection m r ≡ ok (added m r)
unfolding add_connection
add_connection_free m r f = rw (find_uri_of_IsFree m.heap m.connections (uri_of m r) f)

pub add_connection_taken :
    (m : Manager) (r : ℕ) {p : ℕ}
    → find_uri m.heap m.connections (uri_of m r) ≡ some p
    → add_connection m r ≡ err uri_exists
unfolding add_connection
add_connection_taken m r e = rw e

-- What an addition needs of the connections, whatever the current connection is.
pub record IsReady (m : Manager) : Type 0 where
  pub distinct : HasDistinctUris m.heap m.connections
  pub allocated : IsAllocated m.next_ref m.connections

pub added-IsReady :
    (m : Manager) (r : ℕ)
    → IsReady m
    → r < m.next_ref
    → IsFree m.heap (uri_of m r) m.connections
    → IsReady (added m r)
unfolding set_proxy_to_worker
added-IsReady m r v h f =
    let refs = m.connections ++ r ∷ [] in
    record {
      distinct =
          HasDistinctUris-KeepsUris m.heap (added m r).heap refs
            (KeepsUris-update m.heap r (set_proxy_to_worker (m.heap r) m.proxy_to_worker) refs refl)
            (HasDistinctUris-append m.heap m.connections r v.distinct f);
      allocated = All-append (λ x. x < m.next_ref) m.connections (r ∷ []) v.allocated (h, tt);
    }

pub ready : (m : Manager) → IsValid m → IsReady m
ready m v = record { distinct = v.distinct; allocated = v.allocated }

pub add_connection-IsOk :
    (m : Manager) (r : ℕ) → IsValid m → r < m.next_ref → IsOk (add_connection m r)
add_connection-IsOk m r v h = elim (Option-cases (find_uri m.heap m.connections (uri_of m r))) [
  | inl free ↦
      let f = IsFree-of_find_uri m.heap m.connections (uri_of m r) free in
      let after = added-IsReady m r (ready m v) h f in
      rw (add_connection_free m r f) (record {
        distinct = after.distinct;
        allocated = after.allocated;
        current = IsListed-append m.connections r m.current_connection v.current;
      })
  | inr (p, taken) ↦ rw (add_connection_taken m r taken) tt
]

IsListed-without :
    (refs : List ℕ) (p : ℕ) (c : Option ℕ)
    → same_num c (some p) ≡ false
    → IsListed refs c
    → IsListed (without p refs) c
IsListed-without refs p none n h = tt
IsListed-without refs p (some c) n h = ground (arith, includes-without p refs c)

remove_ref-IsValid : (m : Manager) (r : ℕ) → IsValid m → IsValid (remove_ref m r)
unfolding remove_ref
remove_ref-IsValid m r v = elim (Bool-cases (same_num m.current_connection (some r))) [
  | inl same ↦
      rw (same, remove_distinct m.heap r m.connections v.distinct)
        (record {
          distinct = HasDistinctUris-without m.heap r m.connections v.distinct;
          allocated = IsAllocated-without m.next_ref r m.connections v.allocated;
          current = tt;
        })
  | inr other ↦
      rw (other, remove_distinct m.heap r m.connections v.distinct)
        (record {
          distinct = HasDistinctUris-without m.heap r m.connections v.distinct;
          allocated = IsAllocated-without m.next_ref r m.connections v.allocated;
          current = IsListed-without m.connections r m.current_connection other v.current;
        })
]

pub remove_connection-IsOk :
    (m : Manager) (uri : Option Text) → IsValid m → IsOk (remove_connection m uri)
unfolding remove_connection
remove_connection-IsOk m uri v = elim (Option-cases (find_uri m.heap m.connections uri)) [
  | inl free ↦ rw (free, remove_connection, get_connection_by_uri) tt
  | inr (p, taken) ↦ rw (taken, remove_connection, get_connection_by_uri) (remove_ref-IsValid m p v)
]
