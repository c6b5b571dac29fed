-- ===== src/ConnectionManager/Responses/Best.antt =====
-- The connection that `getBestConnectionFromPrioritizedResponses` of MoneroConnectionManager.ts
-- chooses.
use qwertycoin_ts.Common.{
  ℕ, ◌≡◌, ◌↔◌, refl, ◌⊎◌, inl, inr, Bool, true, false, ◌&&◌, ◌||◌, List, [], ◌∷◌, ◌++◌, Option,
  none, some, arith, All, All-append, Bool-cases, Option-cases, includes, includes-append, subst,
  if◌then◌else◌, ◌==◌,
}
use mathlib.Core.Option.{some-injective}
use mathlib.Core.List.{append_assoc, append-nil}
use qwertycoin_ts.ConnectionManager.{Manager, uri_of}
use qwertycoin_ts.ConnectionManager.Responses.{
  lt_time, truthy, time_at, consistently_better, connected, best_response, choose_best,
  get_best_connection_from_prioritized_responses,
}
use qwertycoin_ts.ConnectionManager.Responses.History.{HasNoTimes, consistently_better_no_times}

-- A connected connection with a shorter response time than another.
abbrev pub is_faster : Manager → ℕ → ℕ → Bool
is_faster m r b = connected m r && lt_time (m.heap r).response_time (m.heap b).response_time

-- The best of some responses: one of them, connected, and none of them is faster.
pub record IsBest (m : Manager) (b : ℕ) (refs : List ℕ) : Type 0 where
  pub listed : includes refs b ≡ true
  pub connects : connected m b ≡ true
  pub fastest : All (λ r. is_faster m r b ≡ false) refs

abbrev IsBestOf : Manager → Option ℕ → List ℕ → Type 0
IsBestOf m none refs = All (λ r. connected m r ≡ false) refs
IsBestOf m (some b) refs = IsBest m b refs

lt_time_trans : (s r b : Option ℕ) → lt_time r b ≡ true → lt_time s b ≡ false → lt_time s r ≡ false
lt_time_trans none r b h k = refl
lt_time_trans (some s) none b h k = refl
lt_time_trans (some s) (some r) none h k = cc
lt_time_trans (some s) (some r) (some b) h k = ground arith

lt_time_irrefl : (t : Option ℕ) → lt_time t t ≡ false
lt_time_irrefl none = refl
lt_time_irrefl (some t) = ground arith

module _ (m : Manager) where
  fastest_of_faster :
      (r b : ℕ) (refs : List ℕ)
      → is_faster m r b ≡ true
      → All (λ s. is_faster m s b ≡ false) refs
      → All (λ s. is_faster m s r ≡ false) refs
  fastest_of_faster r b [] h k = tt
  fastest_of_faster r b (s ∷ refs) h k = (
    ground (
      arith,
      lt_time_trans (m.heap s).response_time (m.heap r).response_time (m.heap b).response_time,
    ),
    fastest_of_faster r b refs h k.1,
  )

  not_faster_of_offline :
      (r : ℕ) (refs : List ℕ)
      → All (λ s. connected m s ≡ false) refs
      → All (λ s. is_faster m s r ≡ false) refs
  not_faster_of_offline r [] h = tt
  not_faster_of_offline r (s ∷ refs) h = (rw h.0, not_faster_of_offline r refs h.1)

  -- One round of the loop.
  better_of : Option ℕ → ℕ → Option ℕ
  better_of none r = if connected m r then some r else none
  better_of (some b) r = if is_faster m r b then some r else some b

  includes_last : (seen : List ℕ) (r : ℕ) → includes (seen ++ r ∷ []) r ≡ true
  includes_last seen r = ground (arith, includes-append seen (r ∷ []) r)

  better_of-IsBestOf :
      (best : Option ℕ) (seen : List ℕ) (r : ℕ)
      → IsBestOf m best seen
      → IsBestOf m (better_of best r) (seen ++ r ∷ [])
  unfolding better_of
  better_of-IsBestOf none seen r h = elim (Bool-cases (connected m r)) [
    | inl on ↦ rw on (record {
      listed = includes_last seen r;
      connects = on;
      fastest =
          All-append (λ s. is_faster m s r ≡ false) seen (r ∷ []) (not_faster_of_offline r seen h)
            (ground (arith, lt_time_irrefl (m.heap r).response_time), tt);
    })
    | inr off ↦ rw off (All-append (λ s. connected m s ≡ false) seen (r ∷ []) h (off, tt))
  ]
  better_of-IsBestOf (some b) seen r h = elim (Bool-cases (is_faster m r b)) [
    | inl yes_faster ↦ rw yes_faster (record {
      listed = includes_last seen r;
      connects = ground arith;
      fastest =
          All-append (λ s. is_faster m s r ≡ false) seen (r ∷ [])
            (fastest_of_faster r b seen yes_faster h.fastest)
            (ground (arith, lt_time_irrefl (m.heap r).response_time), tt);
    })
    | inr not_faster ↦ rw not_faster (record {
      listed = ground (arith, includes-append seen (r ∷ []) b, h.listed);
      connects = h.connects;
      fastest = All-append (λ s. is_faster m s b ≡ false) seen (r ∷ []) h.fastest (not_faster, tt);
    })
  ]

  best_response-IsBestOf :
      (best : Option ℕ) (seen refs : List ℕ)
      → IsBestOf m best seen
      → IsBestOf m (best_response m best refs) (seen ++ refs)
  unfolding best_response better_of
  best_response-IsBestOf best seen [] h = rw (append-nil seen) h
  best_response-IsBestOf none seen (r ∷ refs) h = rw (append_assoc seen (r ∷ []) refs) at (
      best_response-IsBestOf (better_of none r) (seen ++ r ∷ []) refs
        (better_of-IsBestOf none seen r h))
  best_response-IsBestOf (some b) seen (r ∷ refs) h = rw (append_assoc seen (r ∷ []) refs) at (
      best_response-IsBestOf (better_of (some b) r) (seen ++ r ∷ []) refs
        (better_of-IsBestOf (some b) seen r h))

  best_response_lem : (refs : List ℕ) → IsBestOf m (best_response m none refs) refs
  best_response_lem refs = best_response-IsBestOf none [] refs tt

-- No connection is chosen from responses exactly when none of them is connected.
pub get_best-none_iff :
    (m : Manager) (refs : List ℕ)
    → (get_best_connection_from_prioritized_responses m refs ≡ none)
      ↔ All (λ r. connected m r ≡ false) refs
unfolding get_best_connection_from_prioritized_responses
get_best-none_iff m refs = elim (Option-cases (best_response m none refs)) [
  | inl e ↦
      rw (e, get_best_connection_from_prioritized_responses)
        ((λ h. rw e at (best_response_lem m refs)), λ h. refl)
  | inr (b, e) ↦
      let best : IsBest m b refs = rw e at (best_response_lem m refs) in
      rw (e, get_best_connection_from_prioritized_responses)
        ((λ h. cc), λ h. absurd (offline refs b h best.listed best.connects))
]
  where
    offline :
        (xs : List ℕ) (b : ℕ)
        → All (λ r. connected m r ≡ false) xs
        → includes xs b ≡ true
        → connected m b ≡ true
        → ⊥
    offline [] b h i c = cc
    offline (x ∷ xs) b h i c = elim (Bool-cases (x == b)) [
      | inl same ↦
          let e : x ≡ b = ground arith in
          let off : connected m b ≡ false = subst (λ y. connected m y ≡ false) e h.0 in cc
      | inr other ↦ offline xs b h.1 (ground arith) c
    ]

choose_best-cases :
    (m : Manager) (refs : List ℕ) (b : ℕ) (current : Option ℕ)
    → HasNoTimes m.response_times
    → let r = choose_best m refs b current in
      (r ≡ b) ⊎ ((current ≡ some r) × (connected m r ≡ true))
unfolding choose_best
choose_best-cases m refs b none h = inl refl
choose_best-cases m refs b (some c) h = ground (arith, consistently_better_no_times m c refs h)

-- While no response time is recorded, the chosen connection is a best response, or it is the
-- current connection, which is connected.
pub chosen-IsBest :
    (m : Manager) (refs : List ℕ) {r : ℕ}
    → HasNoTimes m.response_times
    → get_best_connection_from_prioritized_responses m refs ≡ some r
    → IsBest m r refs ⊎ ((m.current_connection ≡ some r) × (connected m r ≡ true))
unfolding get_best_connection_from_prioritized_responses
chosen-IsBest m refs {r} h e = elim (Option-cases (best_response m none refs)) [
  | inl none_best ↦
      absurd (cc (rw (none_best, get_best_connection_from_prioritized_responses) at e))
  | inr (b, best) ↦
      let is_best : IsBest m b refs = rw best at (best_response_lem m refs) in
      let chosen : choose_best m refs b m.current_connection ≡ r =
        some-injective _ _ (rw (best, get_best_connection_from_prioritized_responses) at e) in
      subst
        (λ (x : ℕ). IsBest m x refs ⊎ ((m.current_connection ≡ some x) × (connected m x ≡ true)))
        chosen (or_current b _ is_best (choose_best-cases m refs b m.current_connection h))
]
  where
    or_current :
        (b x : ℕ)
        → IsBest m b refs
        → (x ≡ b) ⊎ ((m.current_connection ≡ some x) × (connected m x ≡ true))
        → IsBest m x refs ⊎ ((m.current_connection ≡ some x) × (connected m x ≡ true))
    or_current b _ is_best (inl same) = inl (rw same is_best)
    or_current b _ is_best (inr kept) = inr kept

-- While no response time is recorded, a connected current connection is kept among responses of
-- its own priority, even if one of them is always faster.
pub get_best_keeps :
    (m : Manager) (refs : List ℕ) (b c : ℕ)
    → HasNoTimes m.response_times
    → m.current_connection ≡ some c
    → connected m c ≡ true
    → best_response m none refs ≡ some b
    → (m.heap b).priority ≡ (m.heap c).priority
    → get_best_connection_from_prioritized_responses m refs ≡ some c
unfolding get_best_connection_from_prioritized_responses
get_best_keeps m refs b c h e on best p =
    rw (best, e, get_best_connection_from_prioritized_responses, choose_best)
      (ground (arith, consistently_better_no_times m c refs h))

-- Whatever was recorded, a current connection with a recorded response time other than 0 among its
-- latest three is never replaced as not being consistently the best.
pub consistently_better-truthy :
    (m : Manager) (best : ℕ) (refs : List ℕ)
    → (truthy (time_at m.response_times (uri_of m best) 0)
        || truthy (time_at m.response_times (uri_of m best) 1)
        || truthy (time_at m.response_times (uri_of m best) 2))
      ≡ true
    → consistently_better m best refs ≡ best
unfolding consistently_better
consistently_better-truthy m best [] h = refl
consistently_better-truthy m best (r ∷ refs) h =
    ground (arith, consistently_better-truthy m best refs h)
