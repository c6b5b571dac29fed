-- ===== src/ConnectionManager/Responses/History.antt =====
-- What `processResponses` of MoneroConnectionManager.ts records, and what follows for the choice of
-- a connection that is consistently better.
use qwertycoin_ts.Common.{
  ℕ, zero, suc, ◌≤◌, ◌≡◌, refl, ap, ◌⊎◌, inl, inr, false, List, [], ◌∷◌, ◌++◌, Option, none, some,
  arith, All, All-append, Bool-cases, length, Text, get_elem?,
}
use qwertycoin_ts.Common.Result.{ok}
use qwertycoin_ts.RpcConnection.{RpcConnection}
use qwertycoin_ts.ConnectionManager.{Manager, uri_of}
use qwertycoin_ts.ConnectionManager.Responses.{
  array_contains, connection_items, Times, TimesMap, times_of, has_times, add_new, insert_times,
  record_times, key_item, shorten, pop, time_at, consistently_better,
}

abbrev pub AllUndefined : Times → Type 0
AllUndefined ts = All (λ t. t ≡ none) ts

-- No response time was ever recorded, and no list is longer than three.
abbrev pub HasNoTimes : TimesMap → Type 0
HasNoTimes times = All (λ e. AllUndefined e.1 × (length e.1 ≤ 3)) times

-- A URI, a string or undefined, is never equal to a connection object.
array_contains_key :
    (heap : ℕ → RpcConnection) (refs : List ℕ) (key : Option Text)
    → array_contains heap (connection_items refs) (key_item key) ≡ false
unfolding array_contains
array_contains_key heap [] none = refl
array_contains_key heap [] (some uri) = refl
array_contains_key heap (r ∷ refs) none = array_contains_key heap refs none
array_contains_key heap (r ∷ refs) (some uri) = array_contains_key heap refs (some uri)

AllUndefined-pop : (ts : Times) → AllUndefined ts → AllUndefined (pop ts)
AllUndefined-pop [] h = tt
AllUndefined-pop (t ∷ []) h = tt
AllUndefined-pop (t ∷ u ∷ ts) h = (h.0, AllUndefined-pop (u ∷ ts) h.1)

length-pop : (t : Option ℕ) (ts : Times) → length (pop (t ∷ ts)) ≡ length ts
length-pop t [] = refl
length-pop t (u ∷ ts) = ap suc (length-pop u ts)

shorten_short :
    (ts : Times)
    → AllUndefined ts
    → length ts ≤ 3
    → AllUndefined (shorten (none ∷ ts)) × (length (shorten (none ∷ ts)) ≤ 3)
shorten_short ts h k = ground (arith, AllUndefined-pop (none ∷ ts) (refl, h), length-pop none ts)

pub insert_times-HasNoTimes :
    (m : Manager) (responses : List ℕ) (times : TimesMap)
    → HasNoTimes times
    → (times' : TimesMap) × (insert_times m responses times ≡ ok times') × HasNoTimes times'
unfolding insert_times
insert_times-HasNoTimes m responses [] h = ([], refl, tt)
insert_times-HasNoTimes m responses ((k, ts) ∷ times) h =
    let (times', e, h') = insert_times-HasNoTimes m responses times h.1 in
    (
      ((k, shorten (none ∷ ts)) ∷ times'),
      rw (array_contains_key m.heap responses k, e),
      (shorten_short ts h.0.0 h.0.1, h'),
    )

pub add_new-HasNoTimes :
    (m : Manager) (times : TimesMap) (refs : List ℕ)
    → HasNoTimes times
    → HasNoTimes (add_new m times refs)
unfolding add_new
add_new-HasNoTimes m times [] h = h
add_new-HasNoTimes m times (r ∷ refs) h = elim (Bool-cases (has_times times (uri_of m r))) [
  | inl old ↦ rw old (add_new-HasNoTimes m times refs h)
  | inr new ↦ rw new (
      add_new-HasNoTimes m (times ++ (uri_of m r, []) ∷ []) refs (
        All-append (λ e. AllUndefined e.1 × (length e.1 ≤ 3)) times ((uri_of m r, []) ∷ []) h
          ((tt, omega arith), tt)))
]

-- Recording responses throws nothing and records no response time, however fast the responses
-- were: from lists without a time it makes lists of undefined entries, three at most.
pub record_times-HasNoTimes :
    (m : Manager) (responses : List ℕ)
    → HasNoTimes m.response_times
    → (m' : Manager) × (record_times m responses ≡ ok m') × HasNoTimes m'.response_times
unfolding record_times
record_times-HasNoTimes m responses h =
    let (times, e, h') =
      insert_times-HasNoTimes m responses (add_new m m.response_times responses)
        (add_new-HasNoTimes m m.response_times responses h) in
    (record m { response_times = times }, rw e, h')

get_elem?_undefined :
    (ts : Times) (i : ℕ) → AllUndefined ts → (get_elem? ts i ≡ none) ⊎ (get_elem? ts i ≡ some none)
get_elem?_undefined [] i h = inl refl
get_elem?_undefined (t ∷ ts) zero h = inr (ap some h.0)
get_elem?_undefined (t ∷ ts) (suc i) h = get_elem?_undefined ts i h.1

time_at-none :
    (times : TimesMap) (uri : Option Text) (i : ℕ) → HasNoTimes times → time_at times uri i ≡ none
unfolding times_of
time_at-none [] uri i h = refl
time_at-none ((k, ts) ∷ times) uri i h =
    ground (arith, get_elem?_undefined ts i h.0.0, time_at-none times uri i h.1)

-- Without a recorded time nothing is better.
pub consistently_better_no_times :
    (m : Manager) (best : ℕ) (refs : List ℕ)
    → HasNoTimes m.response_times
    → consistently_better m best refs ≡ best
unfolding consistently_better
consistently_better_no_times m best [] h = refl
consistently_better_no_times m best (r ∷ refs) h = ground (
  arith,
  time_at-none m.response_times (uri_of m r) 0 h,
  consistently_better_no_times m best refs h,
)
