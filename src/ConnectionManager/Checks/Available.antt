-- ===== src/ConnectionManager/Checks/Available.antt =====
-- What `processResponses` of MoneroConnectionManager.ts leaves: a connected manager if a connection is
-- available.
use qwertycoin_ts.Common.{
  ℕ, ◌≡◌, ◌⊎◌, refl, sym, ap, ◌∙◌, subst, true, false, List, [], ◌∷◌, Option, none, some, arith,
  All, includes, ◌==◌, same_flag, Bool-cases, Option-cases, inl, inr, if◌then◌else◌,
}
use qwertycoin_ts.Common.Result.{ok, ◌>>=◌}
use qwertycoin_ts.RpcConnection.{RpcConnection, is_connected}
use qwertycoin_ts.ConnectionManager.{Manager, set_object, manager_connected}
use qwertycoin_ts.ConnectionManager.Invariant.{IsListed}
use qwertycoin_ts.ConnectionManager.Priority.{
  get_connections_in_ascending_priority, values, Entry, has_key,
}
use qwertycoin_ts.ConnectionManager.Priority.Groups.{with_priority, AreWhole, Covers}
use qwertycoin_ts.ConnectionManager.Priority.Ranked.{ascending_priority-AreRankedGroups}
use qwertycoin_ts.ConnectionManager.Responses.{
  connected, get_best_connection_from_prioritized_responses, update_best_from,
  update_best_connection_in_priority, process_responses, record_times, add_new,
}
use qwertycoin_ts.ConnectionManager.Responses.History.{insert_times-HasNoTimes, add_new-HasNoTimes}
use qwertycoin_ts.ConnectionManager.Responses.Best.{get_best-none_iff, chosen-IsBest}
use qwertycoin_ts.ConnectionManager.Checks.Switch.{IsServing, set_managed}
use qwertycoin_ts.ConnectionManager.Checks.{is_manager_connected}

IsListed-includes :
    (m : Manager) (r : ℕ)
    → IsServing m
    → m.current_connection ≡ some r
    → includes m.connections r ≡ true
IsListed-includes m r s e = subst (IsListed m.connections) e s.valid.current

chosen_managed :
    (m : Manager) (g : List ℕ) (r : ℕ)
    → IsServing m
    → ((x : ℕ) → includes g x ≡ true → includes m.connections x ≡ true)
    → get_best_connection_from_prioritized_responses m g ≡ some r
    → (includes m.connections r ≡ true) × (connected m r ≡ true)
chosen_managed m g r s within e = elim (chosen-IsBest m g s.no_times e) [
  | inl best ↦ (within r best.listed, best.connects)
  | inr current ↦ (IsListed-includes m r s current.0, current.1)
]

pub connects :
    (m : Manager) (r : ℕ)
    → m.current_connection ≡ some r
    → connected m r ≡ true
    → is_manager_connected m ≡ true
unfolding manager_connected
connects m r e c =
    ap
      (λ o. same_flag (elim o [ none ↦ some false | some x ↦ is_connected (m.heap x) ]) (some true))
      e
    ∙ c

-- No connection of a list is connected.
abbrev pub AreOffline : Manager → List ℕ → Type 0
AreOffline m refs = All (λ r. connected m r ≡ false) refs

AreOffline-includes :
    (m : Manager) (refs : List ℕ) (r : ℕ)
    → AreOffline m refs
    → includes refs r ≡ true
    → connected m r ≡ false
AreOffline-includes m [] r h i = ground arith
AreOffline-includes m (x ∷ refs) r h i = elim (Bool-cases (x == r)) [
  | inl same ↦ let at : x ≡ r = ground arith in subst (λ y. connected m y ≡ false) at h.0
  | inr other ↦ AreOffline-includes m refs r h.1 (ground arith)
]

-- The groups hold managed connections.
abbrev pub AreManaged : Manager → List (List ℕ) → Type 0
AreManaged m gs = All (λ g. (x : ℕ) → includes g x ≡ true → includes m.connections x ≡ true) gs

update_best_from-chosen :
    (m : Manager) (g : List ℕ) (gs : List (List ℕ)) (chosen : Option ℕ)
    → get_best_connection_from_prioritized_responses m g ≡ chosen
    → update_best_from m (g ∷ gs) ≡ elim chosen [
      | none ↦ update_best_from m gs
      | some r ↦ set_object m r >>= (λ m'. ok (m', some r))
    ]
unfolding update_best_from
update_best_from-chosen m g gs chosen e =
    ap
      (λ o. elim o [
        | none ↦ update_best_from m gs
        | some r ↦ set_object m r >>= (λ m'. ok (m', some r))
      ])
      e

update_best_from-connects :
    (m : Manager) (gs : List (List ℕ))
    → IsServing m
    → AreManaged m gs
    → (m' : Manager) × (best : Option ℕ) × (update_best_from m gs ≡ ok (m', best))
      × IsServing m'
      × ((x : ℕ) → includes m'.connections x ≡ includes m.connections x)
      × ((is_manager_connected m' ≡ true) ⊎ ((m' ≡ m) × All (AreOffline m) gs))
unfolding update_best_from
update_best_from-connects m [] s w = (m, none, refl, s, (λ x. refl), inr (refl, tt))
update_best_from-connects m (g ∷ gs) s w =
    elim (Option-cases (get_best_connection_from_prioritized_responses m g)) [
      | inl e ↦
          let (m', best, run, s', kept, after) = update_best_from-connects m gs s w.1 in
          (
            m',
            best,
            update_best_from-chosen m g gs none e ∙ run,
            s',
            kept,
            elim after [
              | inl on ↦ inl on
              | inr off ↦ inr (off.0, ((get_best-none_iff m g).0 e, off.1))
            ],
          )
      | inr (r, e) ↦
          let (i, c) = chosen_managed m g r s w.0 e in
          let (m', x, s') = set_managed m r s i in
          (
            m',
            some r,
            update_best_from-chosen m g gs (some r) e
                ∙ ap (λ t. t >>= (λ m''. ok (m'', some r))) x.run,
            s',
            x.keeps_managed,
            inl (connects m' r x.current (x.connects r ∙ c)),
          )
    ]

with_priority-within :
    (heap : ℕ → RpcConnection) (p : ℕ) (refs : List ℕ) (x : ℕ)
    → includes (with_priority heap p refs) x ≡ true
    → includes refs x ≡ true
with_priority-within heap p [] x i = i
with_priority-within heap p (r ∷ refs) x i = ground (arith, with_priority-within heap p refs x)

with_priority-includes :
    (heap : ℕ → RpcConnection) (refs : List ℕ) (x : ℕ)
    → includes refs x ≡ true
    → includes (with_priority heap (heap x).priority refs) x ≡ true
with_priority-includes heap [] x i = i
with_priority-includes heap (r ∷ refs) x i = elim (Bool-cases (r == x)) [
  | inl same ↦ let at : r ≡ x = ground arith in rw at (ground arith)
  | inr other ↦ ground (arith, with_priority-includes heap refs x)
]

AreWhole-AreManaged :
    (m : Manager) (es : List Entry) → AreWhole m.heap m.connections es → AreManaged m (values es)
AreWhole-AreManaged m [] w = tt
AreWhole-AreManaged m (e ∷ es) w = (
  λ x i. with_priority-within m.heap e.0 m.connections x (subst (λ g. includes g x ≡ true) w.0 i),
  AreWhole-AreManaged m es w.1,
)

group-AreOffline :
    (m : Manager) (p : ℕ) (es : List Entry)
    → AreWhole m.heap m.connections es
    → All (AreOffline m) (values es)
    → has_key p es ≡ true
    → AreOffline m (with_priority m.heap p m.connections)
group-AreOffline m p [] w h k = ground arith
group-AreOffline m p (e ∷ es) w h k = elim (Bool-cases (e.0 == p)) [
  | inl same ↦
      let at : e.0 ≡ p = ground arith in
      subst (λ q. AreOffline m (with_priority m.heap q m.connections)) at
        (subst (AreOffline m) w.0 h.0)
  | inr other ↦ group-AreOffline m p es w.1 h.1 (ground arith)
]

covered-AreOffline :
    (m : Manager) (es : List Entry) (refs : List ℕ)
    → AreWhole m.heap m.connections es
    → All (AreOffline m) (values es)
    → Covers m.heap refs es
    → ((x : ℕ) → includes refs x ≡ true → includes m.connections x ≡ true)
    → AreOffline m refs
covered-AreOffline m es [] w h c within = tt
covered-AreOffline m es (r ∷ refs) w h c within = (
  AreOffline-includes m (with_priority m.heap (m.heap r).priority m.connections) r
      (group-AreOffline m (m.heap r).priority es w h c.0)
      (with_priority-includes m.heap m.connections r (within r (ground arith))),
  covered-AreOffline m es refs w h c.1 (λ x i. within x (ground arith)),
)

-- If no managed connection of the groups is connected, no managed connection is.
pub groups-AreOffline :
    (m : Manager)
    → All (AreOffline m) (get_connections_in_ascending_priority m)
    → AreOffline m m.connections
groups-AreOffline m h =
    let g = ascending_priority-AreRankedGroups m in
    covered-AreOffline m g.entries m.connections g.whole (subst (All (AreOffline m)) g.listed h)
      g.covers (λ x i. i)

pub groups-AreManaged : (m : Manager) → AreManaged m (get_connections_in_ascending_priority m)
groups-AreManaged m =
    let g = ascending_priority-AreRankedGroups m in
    subst (AreManaged m) (sym g.listed) (AreWhole-AreManaged m g.entries g.whole)

update_best-connects :
    (m : Manager)
    → IsServing m
    → (m' : Manager) × (best : Option ℕ) × (update_best_connection_in_priority m ≡ ok (m', best))
      × IsServing m'
      × ((x : ℕ) → includes m'.connections x ≡ includes m.connections x)
      × ((is_manager_connected m' ≡ true) ⊎ AreOffline m' m'.connections)
unfolding update_best_connection_in_priority
update_best-connects m s =
    let gs = get_connections_in_ascending_priority m in
    let (m', best, run, s', kept, after) = update_best_from-connects m gs s (groups-AreManaged m) in
    (
      m',
      best,
      ap (λ b. if b then update_best_from m gs else ok (m, none)) s.auto_switches ∙ run,
      s',
      kept,
      elim after [
        | inl on ↦ inl on
        | inr off ↦
            inr (subst (λ n. AreOffline n n.connections) (sym off.0) (groups-AreOffline m off.1))
      ],
    )

-- With automatic switching, processing responses throws nothing and leaves a connected manager, or one
-- of whose connections none is connected; the managed connections stay the same.
pub process_responses-connects :
    (m : Manager) (responses : List ℕ)
    → IsServing m
    → (m' : Manager) × (best : Option ℕ) × (process_responses m responses ≡ ok (m', best))
      × IsServing m'
      × ((x : ℕ) → includes m'.connections x ≡ includes m.connections x)
      × ((is_manager_connected m' ≡ true) ⊎ AreOffline m' m'.connections)
unfolding process_responses record_times
process_responses-connects m responses s =
    let (times, e, n) =
      insert_times-HasNoTimes m responses (add_new m m.response_times responses)
        (add_new-HasNoTimes m m.response_times responses s.no_times) in
    let q = record m { response_times = times } in
    let t : IsServing q = record {
      valid = record {
        distinct = s.valid.distinct;
        allocated = s.valid.allocated;
        current = s.valid.current;
      };
      uris = s.uris;
      no_times = n;
      auto_switches = s.auto_switches;
    } in
    let (m', best, run, s', kept, after) = update_best-connects q t in
    (
      m',
      best,
      ap
            (λ ts.
              (ts >>= (λ times. ok (record m { response_times = times })))
              >>= update_best_connection_in_priority)
            e
          ∙ run,
      s',
      kept,
      after,
    )
