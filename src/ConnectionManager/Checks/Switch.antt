-- ===== src/ConnectionManager/Checks/Switch.antt =====
-- A managed connection of MoneroConnectionManager.ts is made current.
use qwertycoin_ts.Common.{
  ℕ, ◌≡◌, ◌≢◌, refl, sym, ◌∙◌, subst, Bool, true, false, List, [], ◌∷◌, Option, some, arith,
  includes, includes-append, ◌==◌, ◌++◌, Text, same_text, same_text_iff, same_num, same_num_iff,
  same_flag, Bool-cases, inl, inr,
}
use qwertycoin_ts.Common.Result.{ok}
use qwertycoin_ts.GenUtils.Arrays.{without}
use qwertycoin_ts.RpcConnection.{RpcConnection, is_connected, set_proxy_to_worker}
use qwertycoin_ts.ConnectionManager.{
  Manager, update, uri_of, has_text, find_uri, set_object, replace_connection,
}
use qwertycoin_ts.ConnectionManager.Uris.{
  IsFree-without_found, remove_distinct, HasDistinctUris, IsFree,
}
use qwertycoin_ts.ConnectionManager.Invariant.{IsValid, IsValid-of_ok, includes-without}
use qwertycoin_ts.ConnectionManager.Operations.{installed, install_ok, set_object-IsOk}
use qwertycoin_ts.ConnectionManager.Refinement.Lookup.{update-uri}
use qwertycoin_ts.ConnectionManager.Runs.{IsAllocated-includes}
use qwertycoin_ts.ConnectionManager.Responses.{connected}
use qwertycoin_ts.ConnectionManager.Responses.History.{HasNoTimes}

connected-proxy :
    (m : Manager) (r x : ℕ) (b : Bool)
    → same_flag (is_connected (update m.heap r (set_proxy_to_worker (m.heap r) b) x)) (some true)
      ≡ connected m x
unfolding is_connected set_proxy_to_worker
connected-proxy m r x b = elim (Bool-cases (x == r)) [
  | inl same ↦ let at : x ≡ r = ground arith in rw same (rw at refl)
  | inr other ↦ rw other refl
]

uri-proxy :
    (m : Manager) (r x : ℕ) (b : Bool)
    → (update m.heap r (set_proxy_to_worker (m.heap r) b) x).uri ≡ uri_of m x
unfolding set_proxy_to_worker
uri-proxy m r x b = update-uri m.heap r (set_proxy_to_worker (m.heap r) b) refl x

-- A managed connection is found by its URI.
find_uri-managed :
    (heap : ℕ → RpcConnection) (refs : List ℕ) (r : ℕ)
    → HasDistinctUris heap refs
    → includes refs r ≡ true
    → find_uri heap refs (heap r).uri ≡ some r
unfolding find_uri
find_uri-managed heap [] r d i = ground arith
find_uri-managed heap (x ∷ refs) r d i = elim (Bool-cases (x == r)) [
  | inl same ↦
      let at : x ≡ r = ground arith in
      rw (at, (same_text_iff (heap r).uri (heap r).uri).1 refl) refl
  | inr other ↦
      let later : includes refs r ≡ true = ground arith in
      let apart : same_text (heap x).uri (heap r).uri ≡ false = ground (
        arith,
        same_text_iff (heap x).uri (heap r).uri,
        IsFree-includes heap (heap x).uri refs r d.0 later,
      ) in
      rw apart (find_uri-managed heap refs r d.1 later)
]
  where
    IsFree-includes :
        (heap : ℕ → RpcConnection) (uri : Option Text) (refs : List ℕ) (r : ℕ)
        → IsFree heap uri refs
        → includes refs r ≡ true
        → (heap r).uri ≢ uri
    IsFree-includes heap uri [] r f i = ground arith
    IsFree-includes heap uri (x ∷ refs) r f i = elim (Bool-cases (x == r)) [
      | inl same ↦ let at : x ≡ r = ground arith in subst (λ y. (heap y).uri ≢ uri) at f.0
      | inr other ↦ IsFree-includes heap uri refs r f.1 (ground arith)
    ]

includes-to_end :
    (refs : List ℕ) (r x : ℕ)
    → includes refs r ≡ true
    → includes (without r refs ++ r ∷ []) x ≡ includes refs x
includes-to_end refs r x i =
    ground (arith, includes-append (without r refs) (r ∷ []) x, includes-without r refs x)

-- A managed connection has a URI.
abbrev pub HaveUris : Manager → Type 0
HaveUris m = (r : ℕ) → includes m.connections r ≡ true → has_text (uri_of m r) ≡ true

-- A manager that can switch at any time: no response time is recorded, and every managed connection
-- has a URI.
pub record IsServing (m : Manager) : Type 0 where
  pub valid : IsValid m
  pub uris : HaveUris m
  pub no_times : HasNoTimes m.response_times
  pub auto_switches : m.auto_switch ≡ true

-- What making a managed connection current does.
pub record IsSwitched (m : Manager) (r : ℕ) (m' : Manager) : Type 0 where
  pub run : set_object m r ≡ ok m'
  pub current : m'.current_connection ≡ some r
  pub connects : (x : ℕ) → connected m' x ≡ connected m x
  pub keeps_uris : (x : ℕ) → uri_of m' x ≡ uri_of m x
  pub keeps_managed : (x : ℕ) → includes m'.connections x ≡ includes m.connections x
  pub keeps_times : m'.response_times ≡ m.response_times
  pub keeps_auto : m'.auto_switch ≡ m.auto_switch

pub set_managed :
    (m : Manager) (r : ℕ)
    → IsServing m
    → includes m.connections r ≡ true
    → (m' : Manager) × IsSwitched m r m' × IsServing m'
unfolding set_object replace_connection
set_managed m r s i = elim (Bool-cases (same_num m.current_connection (some r))) [
  | inl same ↦ (
    m,
    record {
      run = rw same refl;
      current = (same_num_iff _ _).0 same;
      connects = λ x. refl;
      keeps_uris = λ x. refl;
      keeps_managed = λ x. refl;
      keeps_times = refl;
      keeps_auto = refl;
    },
    s,
  )
  | inr other ↦
      let b = record m { connections = without r m.connections } in
      let taken = find_uri-managed m.heap m.connections r s.valid.distinct i in
      let f = IsFree-without_found m.heap (uri_of m r) r m.connections s.valid.distinct taken in
      let run : set_object m r ≡ ok (installed b r) =
        rw
          (
            other,
            s.uris r i,
            taken,
            remove_distinct m.heap r m.connections s.valid.distinct,
            install_ok b r f,
          )
          refl in
      (
        installed b r,
        record {
          run = run;
          current = refl;
          connects = λ x. connected-proxy m r x m.proxy_to_worker;
          keeps_uris = λ x. uri-proxy m r x m.proxy_to_worker;
          keeps_managed = λ x. includes-to_end m.connections r x i;
          keeps_times = refl;
          keeps_auto = refl;
        },
        record {
          valid =
              IsValid-of_ok (set_object m r)
                (set_object-IsOk m r s.valid
                  (IsAllocated-includes m.next_ref m.connections r s.valid.allocated i))
                run;
          uris = λ x j.
              rw (uri-proxy m r x m.proxy_to_worker)
                (s.uris x (sym (includes-to_end m.connections r x i) ∙ j));
          no_times = s.no_times;
          auto_switches = s.auto_switches;
        },
      )
]
