-- ===== src/ConnectionManager/Refinement/Simulation.antt =====
-- Sequences of calls of a connection manager (MoneroConnectionManager.ts), with the errors that they
-- throw.
use qwertycoin_ts.Common.{
  ℕ, ◌<◌, ◌≡◌, refl, ap, ◌∙◌, List, [], ◌∷◌, Option, none, some, arith, All, Text,
}
use qwertycoin_ts.Common.Result.{Result, ok, err}
use qwertycoin_ts.ConnectionManager.{Manager, ManagerError, find_uri, uri_of}
use qwertycoin_ts.ConnectionManager.Invariant.{IsValid, IsOk}
use qwertycoin_ts.ConnectionManager.Runs.{apply, apply-IsOk, IsGiven}
use qwertycoin_ts.ConnectionManager.Refinement.{
  Book, Refines, RefinesResult, Call, adding, selecting, removing, deselect, clear_all, specified,
  operation, book_of,
}
use qwertycoin_ts.ConnectionManager.Refinement.Steps.{specified-Refines}

-- A call that throws leaves the state as it was.
abbrev pub outcome {ℓ} : {S : Type ℓ} → S → Result ManagerError S → S × Option ManagerError
outcome s (ok t) = (t, none)
outcome s (err e) = (s, some e)

unfoldable pub perform_all : Manager → List Call → Manager × List (Option ManagerError)
perform_all m [] = (m, [])
perform_all m (c ∷ cs) =
    let (m', thrown) = outcome m (apply m (operation c)) in
    let (last, later) = perform_all m' cs in (last, thrown ∷ later)

unfoldable pub specify_all :
    (ℕ → Option Text) → Book → List Call → Book × List (Option ManagerError)
specify_all uris b [] = (b, [])
specify_all uris b (c ∷ cs) =
    let (b', thrown) = outcome b (specified uris b c) in
    let (last, later) = specify_all uris b' cs in (last, thrown ∷ later)

-- A connection object that is passed in exists.
abbrev pub Exists : ℕ → Call → Type 0
Exists next (adding r) = r < next
Exists next (selecting r) = r < next
Exists next _ = Unit

Exists-IsGiven :
    (m : Manager) (next : ℕ) (c : Call)
    → m.next_ref ≡ next
    → Exists next c
    → IsGiven m (operation c)
Exists-IsGiven m next (adding r) e h = omega (arith, e, h)
Exists-IsGiven m next (selecting r) e h = omega (arith, e, h)
Exists-IsGiven m next (removing uri) e h = tt
Exists-IsGiven m next deselect e h = tt
Exists-IsGiven m next clear_all e h = tt

-- Both sequences are in related states, and threw the same errors.
abbrev Agree :
    (ℕ → Option Text)
    → ℕ
    → Book × List (Option ManagerError)
    → Manager × List (Option ManagerError)
    → Type 0
Agree uris next (b, es) (m, fs) = Refines uris next b m × (es ≡ fs)

module _ (uris : ℕ → Option Text) (next : ℕ) where
  outcome-Agree :
      (b : Book) (m : Manager) (s : Result ManagerError Book) (t : Result ManagerError Manager)
      → IsValid m
      → IsOk t
      → Refines uris next b m
      → RefinesResult uris next s t
      → Refines uris next (outcome b s).0 (outcome m t).0
        × ((outcome b s).1 ≡ (outcome m t).1)
        × IsValid (outcome m t).0
  outcome-Agree b m (ok b') (ok m') v i x r = (r, refl, i)
  outcome-Agree b m (err e) (err f) v i x r = (x, ap some r, v)
  outcome-Agree b m (ok b') (err f) v i x r = absurd r
  outcome-Agree b m (err e) (ok m') v i x r = absurd r

  All-Agree :
      (b : Book) (m : Manager) (cs : List Call)
      → IsValid m
      → Refines uris next b m
      → All (Exists next) cs
      → Refines uris next (specify_all uris b cs).0 (perform_all m cs).0
        × ((specify_all uris b cs).1 ≡ (perform_all m cs).1)
  unfolding perform_all specify_all
  All-Agree b m [] v x g = (x, refl)
  All-Agree b m (c ∷ cs) v x g =
      let given = Exists-IsGiven m next c x.next_kept g.0 in
      let (y, same, w) =
        outcome-Agree b m (specified uris b c) (apply m (operation c)) v
          (apply-IsOk m (operation c) v given) x (specified-Refines uris next b m c v x) in
      let (z, later) =
        All-Agree (outcome b (specified uris b c)).0 (outcome m (apply m (operation c))).0 cs w y
          g.1 in
      (
        z,
        ap (λ e. e ∷ (specify_all uris (outcome b (specified uris b c)).0 cs).1) same
            ∙ ap (◌∷◌ (outcome m (apply m (operation c))).1) later,
      )

-- Any sequence of calls that add, remove or select a connection, deselect or clear does to a valid
-- manager what it does to a map from URIs to connections with a current one: each call throws the
-- same error or none, and after them each URI finds the connection that the map has for it, and the
-- current connection is the same.
pub perform_all-specify_all :
    (m : Manager) (cs : List Call)
    → IsValid m
    → All (Exists m.next_ref) cs
    → ((u : Option Text)
        → find_uri (perform_all m cs).0.heap (perform_all m cs).0.connections u
          ≡ (specify_all (uri_of m) (book_of m) cs).0.entries u)
      × ((perform_all m cs).0.current_connection
          ≡ (specify_all (uri_of m) (book_of m) cs).0.current)
      × ((specify_all (uri_of m) (book_of m) cs).1 ≡ (perform_all m cs).1)
perform_all-specify_all m cs v g =
    let start : Refines (uri_of m) m.next_ref (book_of m) m = record {
      finds = λ u. refl;
      current = refl;
      uris_kept = λ r. refl;
      next_kept = refl;
    } in
    let (x, same) = All-Agree (uri_of m) m.next_ref (book_of m) m cs v start g in
    (x.finds, x.current, same)
