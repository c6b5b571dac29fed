-- ===== src/ConnectionManager/Refinement/Steps.antt =====
-- Each call of a connection manager (MoneroConnectionManager.ts) does what the map of URIs says.
use qwertycoin_ts.Common.{
  ℕ, ◌≡◌, refl, sym, ap, ◌∙◌, subst, true, false, List, [], ◌∷◌, ◌++◌, Option, none, some, Text,
  same_num, same_text, Bool-cases, Option-cases, inl, inr,
}
use qwertycoin_ts.Common.Result.{ok, err}
use qwertycoin_ts.GenUtils.Arrays.{without}
use qwertycoin_ts.RpcConnection.{set_proxy_to_worker}
use qwertycoin_ts.ConnectionManager.{
  Manager, no_connection_with_uri, add_connection, remove_connection, remove_ref, set_connection,
  set_object, replace_connection, install, set_nothing, disconnect, clear, find_uri, uri_of,
  has_text, get_connection_by_uri,
}
use qwertycoin_ts.ConnectionManager.Uris.{
  remove_distinct, IsFree-of_find_uri, find_uri_of_IsFree, IsFree-without_found,
}
use qwertycoin_ts.ConnectionManager.Invariant.{
  IsValid, added, add_connection_free, add_connection_taken,
}
use qwertycoin_ts.ConnectionManager.Runs.{apply}
use qwertycoin_ts.ConnectionManager.Refinement.Lookup.{
  put, update-uri, find_uri-heap, find_uri-put, find_uri-delete,
}
use qwertycoin_ts.ConnectionManager.Refinement.{
  Book, Refines, RefinesResult, Call, adding, selecting, removing, deselect, clear_all, specified,
  add_in, remove_in, select_in, operation,
}

put-entries :
    (uri : Option Text) (r : Option ℕ) (f g : Option Text → Option ℕ)
    → ((u : Option Text) → f u ≡ g u)
    → (u : Option Text) → put uri r f u ≡ put uri r g u
put-entries uri r f g e u = rw (e u) refl

module _ (uris : ℕ → Option Text) (next : ℕ) (b : Book) (m : Manager) (v : IsValid m)
    (x : Refines uris next b m) where
  -- The connections of a manager after an addition.
  added-finds :
      (refs : List ℕ) (r : ℕ) (u : Option Text)
      → find_uri m.heap refs (uri_of m r) ≡ none
      → find_uri (added m r).heap (refs ++ r ∷ []) u
        ≡ put (uris r) (some r) (find_uri m.heap refs) u
  unfolding set_proxy_to_worker
  added-finds refs r u free =
      find_uri-heap m.heap _ (refs ++ r ∷ []) u
        (update-uri m.heap r (set_proxy_to_worker (m.heap r) m.proxy_to_worker) refl)
      ∙ find_uri-put m.heap refs r u free
      ∙ ap (λ uri. put uri (some r) (find_uri m.heap refs) u) (x.uris_kept r)

  added-uris : (r s : ℕ) → ((added m r).heap s).uri ≡ uris s
  unfolding set_proxy_to_worker
  added-uris r s =
      update-uri m.heap r (set_proxy_to_worker (m.heap r) m.proxy_to_worker) refl s ∙ x.uris_kept s

  add-Refines :
      (r : ℕ) (entry : Option ℕ)
      → find_uri m.heap m.connections (uri_of m r) ≡ entry
      → RefinesResult uris next (add_in b (uris r) r entry) (add_connection m r)
  add-Refines r none e =
      rw (add_connection_free m r (IsFree-of_find_uri m.heap m.connections (uri_of m r) e))
        (record {
          finds = λ u.
              added-finds m.connections r u e ∙ put-entries (uris r) (some r) _ b.entries x.finds u;
          current = x.current;
          uris_kept = added-uris r;
          next_kept = x.next_kept;
        })
  add-Refines r (some p) e = rw (add_connection_taken m r e) refl

  remove_ref-Refines :
      (uri : Option Text) (p : ℕ)
      → find_uri m.heap m.connections uri ≡ some p
      → RefinesResult uris next (remove_in b uri (some p)) (ok (remove_ref m p))
  unfolding remove_ref
  remove_ref-Refines uri p e =
      let finds : (u : Option Text)
          → find_uri m.heap (without p m.connections) u ≡ put uri none b.entries u =
        λ u.
          find_uri-delete m.heap m.connections p uri u v.distinct e
          ∙ put-entries uri none _ b.entries x.finds u in
      elim (Bool-cases (same_num m.current_connection (some p))) [
        | inl same ↦
            let same' : same_num b.current (some p) ≡ true =
              subst (λ c. same_num c (some p) ≡ true) x.current same in
            rw (same, same', remove_distinct m.heap p m.connections v.distinct)
              (record {
                finds = finds;
                current = refl;
                uris_kept = x.uris_kept;
                next_kept = x.next_kept;
              })
        | inr other ↦
            let other' : same_num b.current (some p) ≡ false =
              subst (λ c. same_num c (some p) ≡ false) x.current other in
            rw (other, other', remove_distinct m.heap p m.connections v.distinct)
              (record {
                finds = finds;
                current = x.current;
                uris_kept = x.uris_kept;
                next_kept = x.next_kept;
              })
      ]

  remove-Refines :
      (uri : Option Text) (entry : Option ℕ)
      → find_uri m.heap m.connections uri ≡ entry
      → RefinesResult uris next (remove_in b uri entry) (remove_connection m uri)
  unfolding remove_connection get_connection_by_uri
  remove-Refines uri entry e =
      let removed : remove_connection m uri
          ≡ elim entry [ none ↦ err no_connection_with_uri | some r ↦ ok (remove_ref m r) ] =
        ap (λ o. elim o [ none ↦ err no_connection_with_uri | some r ↦ ok (remove_ref m r) ]) e in
      subst (RefinesResult uris next (remove_in b uri entry)) (sym removed) (found uri entry e)
    where
      found :
          (uri : Option Text) (entry : Option ℕ)
          → find_uri m.heap m.connections uri ≡ entry
          → RefinesResult uris next
              (remove_in b uri entry)
              (elim entry [ none ↦ err no_connection_with_uri | some r ↦ ok (remove_ref m r) ])
      found uri none e = refl
      found uri (some p) e = remove_ref-Refines uri p e

  -- A connection is made current over a list in which its URI is free.
  install-Refines :
      (refs : List ℕ) (r : ℕ)
      → find_uri m.heap refs (uri_of m r) ≡ none
      → ((u : Option Text)
          → put (uris r) (some r) (find_uri m.heap refs) u ≡ put (uris r) (some r) b.entries u)
      → RefinesResult uris next
          (ok (record { entries = put (uris r) (some r) b.entries; current = some r }))
          (install (record m { connections = refs }) r)
  unfolding install
  install-Refines refs r free same =
      rw
        (add_connection_free (record m { connections = refs }) r
          (IsFree-of_find_uri m.heap refs (uri_of m r) free))
        (record {
          finds = λ u. added-finds refs r u free ∙ same u;
          current = refl;
          uris_kept = added-uris r;
          next_kept = x.next_kept;
        })

  put_deleted :
      (uri : Option Text) (r p : ℕ) (u : Option Text)
      → find_uri m.heap m.connections uri ≡ some p
      → put uri (some r) (find_uri m.heap (without p m.connections)) u
        ≡ put uri (some r) b.entries u
  put_deleted uri r p u e = elim (Bool-cases (same_text uri u)) [
    | inl same ↦ rw same refl
    | inr other ↦
        rw other (find_uri-delete m.heap m.connections p uri u v.distinct e ∙ rw other (x.finds u))
  ]

  replace-Refines :
      (r : ℕ) (entry : Option ℕ)
      → find_uri m.heap m.connections (uri_of m r) ≡ entry
      → has_text (uri_of m r) ≡ true
      → RefinesResult uris next
          (ok (record { entries = put (uris r) (some r) b.entries; current = some r }))
          (replace_connection m r)
  unfolding replace_connection
  replace-Refines r none e h =
      rw (h, e)
        (install-Refines m.connections r e
          (λ u. put-entries (uris r) (some r) _ b.entries x.finds u))
  replace-Refines r (some p) e h =
      let free =
        find_uri_of_IsFree m.heap (without p m.connections) (uri_of m r)
          (IsFree-without_found m.heap (uri_of m r) p m.connections v.distinct e) in
      rw (h, e, remove_distinct m.heap p m.connections v.distinct)
        (install-Refines (without p m.connections) r free (λ u.
          put_deleted (uris r) r p u
            (ap (find_uri m.heap m.connections) (sym (x.uris_kept r)) ∙ e)))

  select-Refines : (r : ℕ) → RefinesResult uris next (select_in b (uris r) r) (set_object m r)
  unfolding set_object
  select-Refines r = elim (Bool-cases (same_num m.current_connection (some r))) [
    | inl same ↦
        let same' : same_num b.current (some r) ≡ true =
          subst (λ c. same_num c (some r) ≡ true) x.current same in
        rw (same, same') x
    | inr other ↦
        let other' : same_num b.current (some r) ≡ false =
          subst (λ c. same_num c (some r) ≡ false) x.current other in
        elim (Bool-cases (has_text (uri_of m r))) [
          | inl text ↦
              let text' : has_text (uris r) ≡ true =
                subst (λ t. has_text t ≡ true) (x.uris_kept r) text in
              rw (other, other', text') (replace-Refines r _ refl text)
          | inr empty ↦
              let empty' : has_text (uris r) ≡ false =
                subst (λ t. has_text t ≡ false) (x.uris_kept r) empty in
              rw (other, other', empty', replace_connection, empty) refl
        ]
  ]

  deselect-Refines : RefinesResult uris next (ok (record b { current = none })) (ok (disconnect m))
  unfolding disconnect set_nothing
  deselect-Refines = elim (Option-cases m.current_connection) [
    | inl e ↦
        rw (e, disconnect, set_nothing)
          (record {
            finds = x.finds;
            current = e;
            uris_kept = x.uris_kept;
            next_kept = x.next_kept;
          })
    | inr (r, e) ↦
        rw (e, disconnect, set_nothing)
          (record {
            finds = x.finds;
            current = refl;
            uris_kept = x.uris_kept;
            next_kept = x.next_kept;
          })
  ]

  clear-Refines :
      RefinesResult uris next (ok (record { entries = λ u. none; current = none })) (ok (clear m))
  unfolding clear find_uri
  clear-Refines = elim (Option-cases m.current_connection) [
    | inl e ↦
        rw (e, clear)
          (record {
            finds = λ u. refl;
            current = e;
            uris_kept = x.uris_kept;
            next_kept = x.next_kept;
          })
    | inr (r, e) ↦
        rw (e, clear)
          (record {
            finds = λ u. refl;
            current = refl;
            uris_kept = x.uris_kept;
            next_kept = x.next_kept;
          })
  ]

-- A call on related states.
pub specified-Refines :
    (uris : ℕ → Option Text) (next : ℕ) (b : Book) (m : Manager) (c : Call)
    → IsValid m
    → Refines uris next b m
    → RefinesResult uris next (specified uris b c) (apply m (operation c))
unfolding specified apply set_connection
specified-Refines uris next b m (adding r) v x =
    add-Refines uris next b m v x r (b.entries (uris r))
      (ap (find_uri m.heap m.connections) (x.uris_kept r) ∙ x.finds (uris r))
specified-Refines uris next b m (selecting r) v x = select-Refines uris next b m v x r
specified-Refines uris next b m (removing uri) v x =
    remove-Refines uris next b m v x uri (b.entries uri) (x.finds uri)
specified-Refines uris next b m deselect v x = deselect-Refines uris next b m v x
specified-Refines uris next b m clear_all v x = clear-Refines uris next b m v x
