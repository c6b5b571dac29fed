-- ===== src/Daemon/Polling/Notified.antt =====
-- Which listeners `announceBlockHeader` of daemon/MoneroDaemonRpc.ts calls.
use qwertycoin_ts.Common.{
  ℕ, zero, suc, ◌≤◌, ◌≡◌, ◌≢◌, refl, sym, ap, ◌∙◌, subst, inl, inr, Bool, Bool-cases, true, false,
  List, [], ◌∷◌, ◌++◌, Option, none, some, arith, length, get_elem?, ◌==◌, All, All-append,
  if◌then◌else◌,
}
use qwertycoin_ts.Daemon.Polling.{
  Listener, Daemon, DaemonPoller, refresh_poller, refresh_listening, with_new_poller, is_nonempty,
  has_listener, without_listener, remove_listener, called, visit, announce_from,
  announce_block_header,
}

-- The listeners in turn, where the one after a listener that removed itself is passed over.
abbrev pub notified_after : Bool → List Listener → List ℕ
notified_after passes [] = []
notified_after true (l ∷ ls) = notified_after false ls
notified_after false (l ∷ ls) = l.id ∷ notified_after l.once ls

-- The listeners that stay.
abbrev pub kept_after : Bool → List Listener → List Listener
kept_after passes [] = []
kept_after true (l ∷ ls) = l ∷ kept_after false ls
kept_after false (l ∷ ls) = if l.once then kept_after true ls else l ∷ kept_after false ls

-- No listener is registered twice.
abbrev pub AreDistinct : List Listener → Type 0
AreDistinct [] = Unit
AreDistinct (l ∷ ls) = All (λ k. l.id ≢ k.id) ls × AreDistinct ls

abbrev AreApart : List Listener → List Listener → Type 0
AreApart seen ls = All (λ l. All (λ k. k.id ≢ l.id) seen) ls

AreApart-extend :
    (seen : List Listener) (l : Listener) (ls : List Listener)
    → AreApart seen ls
    → All (λ k. l.id ≢ k.id) ls
    → AreApart (seen ++ (l ∷ [])) ls
AreApart-extend seen l [] h k = tt
AreApart-extend seen l (m ∷ ls) h k =
    (All-append (λ k. k.id ≢ m.id) seen (l ∷ []) h.0 (k.0, tt), AreApart-extend seen l ls h.1 k.1)

AreApart-nothing : (ls : List Listener) → AreApart [] ls
AreApart-nothing [] = tt
AreApart-nothing (l ∷ ls) = (tt, AreApart-nothing ls)

append_assoc :
    (xs : List Listener) (x : Listener) (ys : List Listener)
    → (xs ++ (x ∷ [])) ++ ys ≡ xs ++ (x ∷ ys)
append_assoc [] x ys = refl
append_assoc (y ∷ xs) x ys = ap (λ zs. y ∷ zs) (append_assoc xs x ys)

append_nil : (xs : List Listener) → xs ++ [] ≡ xs
append_nil [] = refl
append_nil (x ∷ xs) = ap (λ zs. x ∷ zs) (append_nil xs)

length-snoc : (xs : List Listener) (x : Listener) → length (xs ++ (x ∷ [])) ≡ suc (length xs)
length-snoc [] x = refl
length-snoc (y ∷ xs) x = ap suc (length-snoc xs x)

get_elem?-append :
    (xs : List Listener) (x : Listener) (ys : List Listener)
    → get_elem? (xs ++ (x ∷ ys)) (length xs) ≡ some x
get_elem?-append [] x ys = refl
get_elem?-append (y ∷ xs) x ys = get_elem?-append xs x ys

get_elem?-past : (xs : List Listener) (i : ℕ) → length xs ≤ i → get_elem? xs i ≡ none
get_elem?-past [] i h = refl
get_elem?-past (x ∷ xs) zero h = absurd (omega (arith, h))
get_elem?-past (x ∷ xs) (suc i) h = get_elem?-past xs i (omega (arith, h))

refresh_poller-listeners :
    (d : Daemon) (o : Option DaemonPoller) → (refresh_poller d o).0.listeners ≡ d.listeners
unfolding refresh_poller
refresh_poller-listeners d none = refl
refresh_poller-listeners d (some p) = refl

refresh_listening-listeners : (d : Daemon) → (refresh_listening d).0.listeners ≡ d.listeners
unfolding refresh_listening
refresh_listening-listeners d =
    refresh_poller-listeners d (with_new_poller d.poll_listener (is_nonempty d.listeners))

has_listener-append :
    (seen : List Listener) (l : Listener) (ls : List Listener)
    → has_listener (seen ++ (l ∷ ls)) l.id ≡ true
has_listener-append [] l ls = ground arith
has_listener-append (m ∷ seen) l ls = ground (arith, has_listener-append seen l ls)

without_listener-append :
    (seen : List Listener) (l : Listener) (ls : List Listener)
    → All (λ k. k.id ≢ l.id) seen
    → without_listener (seen ++ (l ∷ ls)) l.id ≡ seen ++ ls
unfolding without_listener
without_listener-append [] l ls h = ground arith
without_listener-append (m ∷ seen) l ls h = elim (Bool-cases (m.id == l.id)) [
  | inl same ↦ absurd (h.0 (ground arith))
  | inr other ↦ rw other (ap (λ zs. m ∷ zs) (without_listener-append seen l ls h.1))
]

remove_listener-listeners :
    (d : Daemon) (seen : List Listener) (l : Listener) (ls : List Listener)
    → d.listeners ≡ seen ++ (l ∷ ls)
    → All (λ k. k.id ≢ l.id) seen
    → (remove_listener l.id d).0.listeners ≡ seen ++ ls
unfolding remove_listener
remove_listener-listeners d seen l ls e fresh =
    let has = ap (λ xs. has_listener xs l.id) e ∙ has_listener-append seen l ls in
    rw has (
      refresh_listening-listeners _
      ∙ ap (λ xs. without_listener xs l.id) e
      ∙ without_listener-append seen l ls fresh)

announce_from-step :
    (fuel i : ℕ) (d : Daemon) (l : Listener)
    → get_elem? d.listeners i ≡ some l
    → announce_from (suc fuel) i d ≡ (
      (announce_from fuel (suc i) (called l d)).0,
      l.id ∷ (announce_from fuel (suc i) (called l d)).1,
    )
unfolding announce_from visit
announce_from-step fuel i d l e = ap (visit (announce_from fuel (suc i)) d) e

announce_from-past :
    (fuel i : ℕ) (d : Daemon) → length d.listeners ≤ i → announce_from fuel i d ≡ (d, [])
unfolding announce_from visit
announce_from-past zero i d h = refl
announce_from-past (suc fuel) i d h =
    ap (visit (announce_from fuel (suc i)) d) (get_elem?-past d.listeners i h)

-- What the loop leaves and calls, from the listener at its index on.
IsVisited : List Listener → List ℕ → List Listener → Daemon × List ℕ → Type 0
IsVisited seen ids kept result = (result.1 ≡ ids) × (result.0.listeners ≡ seen ++ kept)

-- The loop after a listener that stays, and after one that removed itself.
module _ (fuel : ℕ) (d : Daemon) (seen : List Listener)
    (visits : (d : Daemon) (seen rest : List Listener)
      → d.listeners ≡ seen ++ rest
      → AreApart seen rest
      → AreDistinct rest
      → length rest ≤ fuel
      → IsVisited seen
          (notified_after false rest)
          (kept_after false rest)
          (announce_from fuel (length seen) d)) where
  next-IsVisited :
      (l : Listener) (rest : List Listener)
      → d.listeners ≡ (seen ++ (l ∷ [])) ++ rest
      → AreApart (seen ++ (l ∷ [])) rest
      → AreDistinct rest
      → length rest ≤ fuel
      → IsVisited seen
          (notified_after false rest)
          (l ∷ kept_after false rest)
          (announce_from fuel (suc (length seen)) d)
  unfolding IsVisited
  next-IsVisited l rest e apart distinct enough =
      let h = visits d (seen ++ (l ∷ [])) rest e apart distinct enough in
      subst
        (λ n.
          IsVisited seen (notified_after false rest) (l ∷ kept_after false rest)
            (announce_from fuel n d))
        (length-snoc seen l) (h.0, h.1 ∙ append_assoc seen l (kept_after false rest))

  passed-IsVisited :
      (rest : List Listener)
      → d.listeners ≡ seen ++ rest
      → AreApart seen rest
      → AreDistinct rest
      → length rest ≤ suc fuel
      → IsVisited seen
          (notified_after true rest)
          (kept_after true rest)
          (announce_from fuel (suc (length seen)) d)
  unfolding IsVisited
  passed-IsVisited [] e apart distinct enough =
      subst (λ r. (r.1 ≡ []) × (r.0.listeners ≡ seen ++ []))
        (sym (
          announce_from-past fuel (suc (length seen)) d
            (omega (arith, ap length (e ∙ append_nil seen)))))
        (refl, e)
  passed-IsVisited (x ∷ rest) e apart distinct enough =
      next-IsVisited x rest (e ∙ sym (append_assoc seen x rest))
        (AreApart-extend seen x rest apart.1 distinct.0) distinct.1 (omega (arith, enough))

announce_from-IsVisited :
    (fuel : ℕ) (d : Daemon) (seen rest : List Listener)
    → d.listeners ≡ seen ++ rest
    → AreApart seen rest
    → AreDistinct rest
    → length rest ≤ fuel
    → IsVisited seen
        (notified_after false rest)
        (kept_after false rest)
        (announce_from fuel (length seen) d)
unfolding IsVisited
announce_from-IsVisited fuel d seen [] e apart distinct enough =
    subst (λ r. (r.1 ≡ []) × (r.0.listeners ≡ seen ++ []))
      (sym
        (announce_from-past fuel (length seen) d (omega (arith, ap length (e ∙ append_nil seen)))))
      (refl, e)
announce_from-IsVisited zero d seen (l ∷ rest) e apart distinct enough =
    absurd (omega (arith, enough))
announce_from-IsVisited (suc fuel) d seen (l ∷ rest) e apart distinct enough =
    let at = ap (λ xs. get_elem? xs (length seen)) e ∙ get_elem?-append seen l rest in
    subst
      (λ r.
        (r.1 ≡ l.id ∷ notified_after l.once rest)
        × (r.0.listeners ≡ seen ++ kept_after false (l ∷ rest)))
      (sym (announce_from-step fuel (length seen) d l at))
      (elim (Bool-cases l.once) [
        | inl once ↦
            let h =
              passed-IsVisited fuel (remove_listener l.id d).0 seen (announce_from-IsVisited fuel)
                rest (remove_listener-listeners d seen l rest e apart.0) apart.1 distinct.1
                (omega (arith, enough)) in
            simp once (ap (λ ids. l.id ∷ ids) h.0, h.1)
        | inr stays ↦
            let h =
              next-IsVisited fuel d seen (announce_from-IsVisited fuel) l rest
                (e ∙ sym (append_assoc seen l rest))
                (AreApart-extend seen l rest apart.1 distinct.0) distinct.1
                (omega (arith, enough)) in
            simp stays (ap (λ ids. l.id ∷ ids) h.0, h.1)
      ])

-- Which listeners hear of a header, if none is registered twice: they are called once each, in
-- order, but the one after a listener that removes itself is passed over. Those that removed
-- themselves are gone afterwards, all others stay in order, and no more rounds of the loop are
-- needed than there are listeners.
pub announce_block_header-notified :
    (d : Daemon)
    → AreDistinct d.listeners
    → ((announce_block_header d).1 ≡ notified_after false d.listeners)
      × ((announce_block_header d).0.listeners ≡ kept_after false d.listeners)
unfolding announce_block_header IsVisited
announce_block_header-notified d distinct =
    announce_from-IsVisited (length d.listeners) d [] d.listeners refl
      (AreApart-nothing d.listeners) distinct (omega arith)
