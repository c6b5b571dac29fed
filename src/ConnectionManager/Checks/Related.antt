-- ===== src/ConnectionManager/Checks/Related.antt =====
-- Managers of MoneroConnectionManager.ts that manage the same connections, before and after a check.
use qwertycoin_ts.Common.{
  ℕ, ◌≡◌, ◌⊎◌, refl, ◌∙◌, Bool, true, false, ◌&&◌, List, [], ◌∷◌, Option, none, some, arith,
  includes, ◌==◌, same_num, Bool-cases, inl, inr, if◌then◌else◌,
}
use qwertycoin_ts.RpcConnection.{
  RpcConnection, HttpReply, Outcome, answered, failed, after_outcome, request_outcome,
  check_connection,
}
use qwertycoin_ts.ConnectionManager.{Manager, update, uri_of, on_connection_changed}
use qwertycoin_ts.ConnectionManager.Uris.{HasDistinctUris-KeepsUris, KeepsUris-update}
use qwertycoin_ts.ConnectionManager.Refinement.Lookup.{update-uri}
use qwertycoin_ts.ConnectionManager.Responses.{Item}
use qwertycoin_ts.ConnectionManager.Checks.{included, is_manager_connected, with_check}
use qwertycoin_ts.ConnectionManager.Checks.Switch.{IsServing}
use qwertycoin_ts.ConnectionManager.Checks.Available.{AreOffline, AreManaged}

after_outcome-uri : (c : RpcConnection) (o : Outcome) (t : ℕ) → (after_outcome c o t).uri ≡ c.uri
unfolding after_outcome
after_outcome-uri c answered t = refl
after_outcome-uri c (failed none) t = refl
after_outcome-uri c (failed (some code)) t = elim (Bool-cases (code == 401)) [
  | inl e ↦ rw e refl
  | inr e ↦ rw e (elim (Bool-cases (code == 404)) [ inl f ↦ rw f refl | inr f ↦ rw f refl ])
]

pub check_connection-uri :
    (c : RpcConnection) (r : HttpReply) (t : ℕ) → (check_connection c r t).0.uri ≡ c.uri
unfolding check_connection
check_connection-uri c r t = after_outcome-uri c (request_outcome c r) t

-- A manager whose connections are those of another.
pub record Follows (m m' : Manager) : Type 0 where
  pub serving : IsServing m'
  pub managed : (x : ℕ) → includes m'.connections x ≡ includes m.connections x

pub Follows-trans : (m m' m'' : Manager) → Follows m m' → Follows m' m'' → Follows m m''
Follows-trans m m' m'' f g = record {
  serving = g.serving;
  managed = λ x. g.managed x ∙ f.managed x;
}

pub heap-Follows :
    (m : Manager) (r : ℕ) (c : RpcConnection)
    → c.uri ≡ uri_of m r
    → IsServing m
    → Follows m (record m { heap = update m.heap r c })
heap-Follows m r c e s = record {
  serving = record {
    valid = record {
      distinct =
          HasDistinctUris-KeepsUris m.heap (update m.heap r c) m.connections
            (KeepsUris-update m.heap r c m.connections e) s.valid.distinct;
      allocated = s.valid.allocated;
      current = s.valid.current;
    };
    uris = λ x i. rw (update-uri m.heap r c e x) (s.uris x i);
    no_times = s.no_times;
    auto_switches = s.auto_switches;
  };
  managed = λ x. refl;
}

pub notified-Follows :
    (m m' : Manager) (c : Option ℕ) → Follows m m' → Follows m (on_connection_changed m' c)
notified-Follows m m' c f = record {
  serving = record {
    valid = record {
      distinct = f.serving.valid.distinct;
      allocated = f.serving.valid.allocated;
      current = f.serving.valid.current;
    };
    uris = f.serving.uris;
    no_times = f.serving.no_times;
    auto_switches = f.serving.auto_switches;
  };
  managed = f.managed;
}

if-Follows :
    (b : Bool) (m p q : Manager) → Follows m p → Follows m q → Follows m (if b then p else q)
if-Follows true m p q f g = f
if-Follows false m p q f g = g

pub with_check-Follows :
    (m : Manager) (r : ℕ) (c : RpcConnection × Bool)
    → c.0.uri ≡ uri_of m r
    → IsServing m
    → Follows m (with_check m r c)
unfolding with_check
with_check-Follows m r (c, change) e s =
    if-Follows (change && same_num (some r) m.current_connection) m _ _
      (notified-Follows m _ (some r) (heap-Follows m r c e s)) (heap-Follows m r c e s)

pub included-within :
    (heap : ℕ → RpcConnection) (excluded : List Item) (refs : List ℕ) (x : ℕ)
    → includes (included heap excluded refs) x ≡ true
    → includes refs x ≡ true
unfolding included
included-within heap excluded [] x i = i
included-within heap excluded (r ∷ refs) x i = ground (arith, included-within heap excluded refs x)

-- Only checks that are started settle.
abbrev pub SettlesStarted : (List ℕ → List ℕ) → Type 0
SettlesStarted in_order =
    (started : List ℕ) (x : ℕ) → includes (in_order started) x ≡ true → includes started x ≡ true

-- A manager that is connected, or of whose connections none is.
abbrev pub IsConnectedIfAny : Manager → Type 0
IsConnectedIfAny m = (is_manager_connected m ≡ true) ⊎ AreOffline m m.connections

pub AreManaged-Follows :
    (m m' : Manager) (gs : List (List ℕ)) → Follows m m' → AreManaged m gs → AreManaged m' gs
AreManaged-Follows m m' [] f w = tt
AreManaged-Follows m m' (g ∷ gs) f w =
    (λ x i. f.managed x ∙ w.0 x i, AreManaged-Follows m m' gs f w.1)
