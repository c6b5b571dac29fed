-- ===== src/Worker/Calls.antt =====
-- Every call to the web worker is settled at most once, in whatever order messages come.
use qwertycoin_ts.Common.{
  ℕ, suc, ◌<◌, ◌≡◌, ◌≢◌, ◌⊎◌, inl, inr, refl, sym, ap, ◌∙◌, subst, Bool, Bool-cases, true, false,
  List, [], ◌∷◌, Option, none, some, arith, ◌==◌, All,
}
use qwertycoin_ts.Common.Result.{ok-injective, ok}
use qwertycoin_ts.Worker.{
  Callback, reply, notify, Callbacks, Worker, insert_at, callbacks_of, registered, set_callbacks,
  or_random, is_random, invoke_worker, after_reply, call_back, on_object, on_message, with_callback,
  add_worker_callback, remove_worker_callback, remove_worker_object,
}

-- What may happen to the callbacks, in any order: calls with any random ids, messages of the worker,
-- and changes of the callbacks. What throws changes nothing.
pub data WorkerStep {R : Type 0} (w : Worker R) : Worker R → Type 0 where
  invokes :
      (object : Option ℕ) (object_uuid callback_uuid : ℕ)
      → WorkerStep w (invoke_worker object object_uuid callback_uuid w)
  receives :
      (object k : ℕ) (response : R) {v : Worker R}
      → on_message object k response w ≡ ok v
      → WorkerStep w v
  adds_callback :
      (object k listener : ℕ) {v : Worker R}
      → add_worker_callback object k listener w ≡ ok v
      → WorkerStep w v
  removes_callback :
      (object k : ℕ) {v : Worker R} → remove_worker_callback object k w ≡ ok v → WorkerStep w v
  removes_object : (object : ℕ) → WorkerStep w (remove_worker_object object w)

abbrev pub new_worker : {R : Type 0} → Worker R
new_worker = record { objects = λ object. none; calls = 0; settled = []; notified = [] }

pub data WorkerReach {R : Type 0} : Worker R → Type 0 where
  begins : WorkerReach new_worker
  follows : {v w : Worker R} → WorkerReach v → WorkerStep v w → WorkerReach w

-- A place of a callback holds the handler of a call.
abbrev Awaits : {R : Type 0} → Worker R → ℕ → ℕ → ℕ → Type 0
Awaits w object k call = (random : Bool) × (registered w object k ≡ some (reply call random))

-- The calls that are settled are distinct.
abbrev pub AreDistinct : {R : Type 0} → List (ℕ × R) → Type 0
AreDistinct [] = Unit
AreDistinct (s ∷ ss) = All (λ t. t.0 ≢ s.0) ss × AreDistinct ss

-- A call waits at one place at most, and then it has been made and is not settled.
record IsSound {R : Type 0} (w : Worker R) : Type 0 where
  awaited :
      (object k call : ℕ)
      → Awaits w object k call
      → (call < w.calls) × All (λ t. t.0 ≢ call) w.settled
  one_place :
      (object k object' k' call : ℕ)
      → Awaits w object k call
      → Awaits w object' k' call
      → (object ≡ object') × (k ≡ k')
  made : All (λ t. t.0 < w.calls) w.settled
  distinct : AreDistinct w.settled

pub insert_at-cases :
    {A : Type 0} (key : ℕ) (a : A) (old : ℕ → A) (k : ℕ)
    → ((k ≡ key) × (insert_at key a old k ≡ a)) ⊎ ((k ≢ key) × (insert_at key a old k ≡ old k))
insert_at-cases key a old k = elim (Bool-cases (k == key)) [
  | inl same ↦ inl (ground arith, rw same refl)
  | inr other ↦ inr (ground arith, rw other refl)
]

module _ {R : Type 0} (w : Worker R) where
  pub set_callbacks-registered :
      (object : ℕ) (o : Option Callbacks) (object' k' : ℕ)
      → ((object' ≡ object)
          × (registered (set_callbacks w object o) object' k' ≡ callbacks_of o k'))
        ⊎ ((object' ≢ object)
            × (registered (set_callbacks w object o) object' k' ≡ registered w object' k'))
  set_callbacks-registered object o object' k' = elim (insert_at-cases object o w.objects object') [
    | inl (same, new) ↦ inl (same, ap (λ p. callbacks_of p k') new)
    | inr (other, old) ↦ inr (other, ap (λ p. callbacks_of p k') old)
  ]

  -- A handler after a change at one place: the new one, or one that was there.
  Awaits-insert :
      (object k : ℕ) (new : Option Callback) (cbs : Callbacks) (object' k' call : ℕ)
      → callbacks_of (w.objects object) ≡ cbs
      → Awaits (set_callbacks w object (some (insert_at k new cbs))) object' k' call
      → ((object' ≡ object) × (k' ≡ k) × ((random : Bool) × (new ≡ some (reply call random))))
        ⊎ (((object' ≢ object) ⊎ (k' ≢ k)) × Awaits w object' k' call)
  Awaits-insert object k new cbs object' k' call held (random, at) =
      elim (set_callbacks-registered object (some (insert_at k new cbs)) object' k') [
        | inr (other, old) ↦ inr (inl other, (random, sym old ∙ at))
        | inl (same, here) ↦ elim (insert_at-cases k new cbs k') [
          | inl (same_k, is_new) ↦ inl (same, same_k, (random, sym is_new ∙ sym here ∙ at))
          | inr (other_k, is_old) ↦ inr (
            inr other_k,
            (
              random,
              ap (λ n. registered w n k') same ∙ ap (λ c. c k') held ∙ sym is_old ∙ sym here ∙ at,
            ),
          )
        ]
      ]

  Awaits-none :
      (object object' k' call : ℕ)
      → Awaits (set_callbacks w object none) object' k' call
      → (object' ≢ object) × Awaits w object' k' call
  Awaits-none object object' k' call (random, at) =
      elim (set_callbacks-registered object none object' k') [
        | inl (same, here) ↦ absurd (cc (sym here ∙ at))
        | inr (other, old) ↦ (other, (random, sym old ∙ at))
      ]

All-weaken :
    {A : Type 0} (P Q : A → Type 0) (xs : List A) → ((a : A) → P a → Q a) → All P xs → All Q xs
All-weaken P Q [] f h = tt
All-weaken P Q (x ∷ xs) f h = (f x h.0, All-weaken P Q xs f h.1)

-- Every handler was at its place before.
abbrev IsFewer : {R : Type 0} → Worker R → Worker R → Type 0
IsFewer v w = (object k call : ℕ) → Awaits v object k call → Awaits w object k call

module _ {R : Type 0} (v w : Worker R) (sound : IsSound w) (fewer : IsFewer v w) where
  fewer-IsSound : v.calls ≡ w.calls → v.settled ≡ w.settled → IsSound v
  fewer-IsSound calls settled = record {
    awaited = λ object k call a.
        let h = sound.awaited object k call (fewer object k call a) in
        (subst (λ n. call < n) (sym calls) h.0, subst (All (λ t. t.0 ≢ call)) (sym settled) h.1);
    one_place = λ object k object' k' call a b.
        sound.one_place object k object' k' call (fewer object k call a) (fewer object' k' call b);
    made =
        subst (All (λ t. t.0 < v.calls)) (sym settled)
          (subst (λ n. All (λ t. t.0 < n) w.settled) (sym calls) sound.made);
    distinct = subst AreDistinct (sym settled) sound.distinct;
  }

  settle-IsSound :
      (object k call : ℕ) (response : R)
      → Awaits w object k call
      → ((object' k' other : ℕ) → Awaits v object' k' other → (object' ≢ object) ⊎ (k' ≢ k))
      → v.calls ≡ w.calls
      → v.settled ≡ (call, response) ∷ w.settled
      → IsSound v
  settle-IsSound object k call response waits gone calls settled =
      let before = sound.awaited object k call waits in
      record {
        awaited = λ object' k' other a.
            let h = sound.awaited object' k' other (fewer object' k' other a) in
            (
              subst (λ n. other < n) (sym calls) h.0,
              subst (All (λ t. t.0 ≢ other)) (sym settled)
                  (λ same. elsewhere object' k' other a same, h.1),
            );
        one_place = λ object' k' later later_k other a b.
            sound.one_place object' k' later later_k other (fewer object' k' other a)
              (fewer later later_k other b);
        made = subst (All (λ t. t.0 < v.calls)) (sym settled) (
            subst (λ n. All (λ t. t.0 < n) ((call, response) ∷ w.settled)) (sym calls)
              (before.0, sound.made));
        distinct = subst AreDistinct (sym settled) (before.1, sound.distinct);
      }
    where
      elsewhere : (object' k' other : ℕ) → Awaits v object' k' other → call ≢ other
      elsewhere object' k' other a same =
          let places =
            sound.one_place object' k' object k other (fewer object' k' other a)
              (subst (Awaits w object k) same waits) in
          elim (gone object' k' other a) [ inl apart ↦ apart places.0 | inr apart ↦ apart places.1 ]

module _ {R : Type 0} (w : Worker R) (sound : IsSound w) where
  insert-IsFewer :
      (object k : ℕ) (new : Option Callback) (cbs : Callbacks)
      → callbacks_of (w.objects object) ≡ cbs
      → ((call : ℕ) (random : Bool) → new ≢ some (reply call random))
      → IsFewer (set_callbacks w object (some (insert_at k new cbs))) w
  insert-IsFewer object k new cbs held no_reply object' k' call a =
      elim (Awaits-insert w object k new cbs object' k' call held a) [
        | inl (same, same_k, (random, is_reply)) ↦ absurd (no_reply call random is_reply)
        | inr (apart, before) ↦ before
      ]

  replied-IsSound :
      (object k call : ℕ) (response : R) (cbs : Callbacks) (random : Bool)
      → w.objects object ≡ some cbs
      → cbs k ≡ some (reply call random)
      → IsSound (
          let v = set_callbacks w object (after_reply random cbs k) in
          record v { settled = (call, response) ∷ w.settled })
  replied-IsSound object k call response cbs true held at =
      settle-IsSound _ w sound (λ o' k' c a. (Awaits-none w object o' k' c a).1) object k call
        response (true, ap (λ p. callbacks_of p k) held ∙ at)
        (λ o' k' c a. inl (Awaits-none w object o' k' c a).0) refl refl
  replied-IsSound object k call response cbs false held at =
      let kept = set_callbacks w object (some (insert_at k none cbs)) in
      let v = record kept { settled = (call, response) ∷ w.settled } in
      settle-IsSound v w sound
        (insert-IsFewer object k none cbs (ap callbacks_of held) (λ c r e. absurd (cc))) object k
        call response (false, ap (λ p. callbacks_of p k) held ∙ at)
        (λ o' k' c a. elim (Awaits-insert w object k none cbs o' k' c (ap callbacks_of held) a) [
          | inl (same, same_k, (random, is_reply)) ↦ absurd (cc)
          | inr (apart, before) ↦ apart
        ])
        refl refl

  call_back-IsSound :
      (object k : ℕ) (response : R) (cbs : Callbacks) (o : Option Callback) (v : Worker R)
      → w.objects object ≡ some cbs
      → cbs k ≡ o
      → call_back w object k response cbs o ≡ ok v
      → IsSound v
  unfolding call_back
  call_back-IsSound object k response cbs none v held at returned = absurd (cc)
  call_back-IsSound object k response cbs (some (notify l)) v held at returned =
      subst IsSound (ok-injective returned) (fewer-IsSound _ w sound (λ o' k' c a. a) refl refl)
  call_back-IsSound object k response cbs (some (reply call random)) v held at returned =
      subst IsSound (ok-injective returned)
        (replied-IsSound object k call response cbs random held at)

  on_object-IsSound :
      (object k : ℕ) (response : R) (o : Option Callbacks) (v : Worker R)
      → w.objects object ≡ o
      → on_object w object k response o ≡ ok v
      → IsSound v
  unfolding on_object
  on_object-IsSound object k response none v held returned = absurd (cc)
  on_object-IsSound object k response (some cbs) v held returned =
      call_back-IsSound object k response cbs (cbs k) v held refl returned

  with_callback-IsSound :
      (object k : ℕ) (new : Option Callback) (o : Option Callbacks) (v : Worker R)
      → w.objects object ≡ o
      → ((call : ℕ) (random : Bool) → new ≢ some (reply call random))
      → with_callback w object k new o ≡ ok v
      → IsSound v
  with_callback-IsSound object k new none v held no_reply returned = absurd (cc)
  with_callback-IsSound object k new (some cbs) v held no_reply returned =
      subst IsSound (ok-injective returned) (
        fewer-IsSound _ w sound (insert-IsFewer object k new cbs (ap callbacks_of held) no_reply)
          refl refl)

  -- A handler after a call was made: that of the call, or one that was there.
  Awaits-invoked :
      (id k : ℕ) (random : Bool) (object' k' call : ℕ)
      → Awaits
          (set_callbacks w id
            (some (insert_at k (some (reply w.calls random)) (callbacks_of (w.objects id)))))
          object'
          k'
          call
      → ((object' ≡ id) × (k' ≡ k) × (call ≡ w.calls)) ⊎ Awaits w object' k' call
  Awaits-invoked id k random object' k' call a =
      elim (Awaits-insert w id k (some (reply w.calls random)) (callbacks_of (w.objects id)) object'
        k' call refl a) [
          | inl (same, same_k, (r, is_reply)) ↦ inl (same, same_k, cc is_reply)
          | inr (apart, before) ↦ inr before
        ]

  invoke_worker-IsSound :
      (object : Option ℕ) (object_uuid callback_uuid : ℕ)
      → IsSound (invoke_worker object object_uuid callback_uuid w)
  unfolding invoke_worker
  invoke_worker-IsSound object object_uuid k =
      let id = or_random object object_uuid in
      let random = is_random object in
      record {
        awaited = λ o' k' c a. elim (Awaits-invoked id k random o' k' c a) [
          | inl (same, same_k, is_new) ↦ (
            omega (arith, is_new),
            All-weaken (λ t. t.0 < w.calls) (λ t. t.0 ≢ c) w.settled
                (λ t lt e. absurd (omega (arith, lt, e, is_new))) sound.made,
          )
          | inr before ↦ let h = sound.awaited o' k' c before in (omega (arith, h.0), h.1)
        ];
        one_place = λ o' k' later later_k c a b. elim (Awaits-invoked id k random o' k' c a) [
          | inl (same, same_k, is_new) ↦ elim (Awaits-invoked id k random later later_k c b) [
            | inl (same', same_k', is_new') ↦ (same ∙ sym same', same_k ∙ sym same_k')
            | inr before ↦ absurd (omega (arith, (sound.awaited later later_k c before).0, is_new))
          ]
          | inr before ↦ elim (Awaits-invoked id k random later later_k c b) [
            | inl (same', same_k', is_new') ↦
                absurd (omega (arith, (sound.awaited o' k' c before).0, is_new'))
            | inr before' ↦ sound.one_place o' k' later later_k c before before'
          ]
        ];
        made =
            All-weaken (λ t. t.0 < w.calls) (λ t. t.0 < suc w.calls) w.settled
              (λ t lt. omega (arith, lt)) sound.made;
        distinct = sound.distinct;
      }

WorkerStep-IsSound : {R : Type 0} {w v : Worker R} → WorkerStep w v → IsSound w → IsSound v
unfolding on_message add_worker_callback remove_worker_callback remove_worker_object
WorkerStep-IsSound {w} (invokes object object_uuid k) h =
    invoke_worker-IsSound w h object object_uuid k
WorkerStep-IsSound {w} (receives object k response {v} returned) h =
    on_object-IsSound w h object k response (w.objects object) v refl returned
WorkerStep-IsSound {w} (adds_callback object k listener {v} returned) h =
    with_callback-IsSound w h object k (some (notify listener)) (w.objects object) v refl
      (λ c r e. absurd (cc)) returned
WorkerStep-IsSound {w} (removes_callback object k {v} returned) h =
    with_callback-IsSound w h object k none (w.objects object) v refl (λ c r e. absurd (cc))
      returned
WorkerStep-IsSound {w} (removes_object object) h =
    fewer-IsSound _ w h (λ o' k' c a. (Awaits-none w object o' k' c a).1) refl refl

WorkerReach-IsSound : {R : Type 0} {w : Worker R} → WorkerReach w → IsSound w
WorkerReach-IsSound begins = record {
  awaited = λ o k c a. absurd (cc a.1);
  one_place = λ o k o' k' c a b. absurd (cc a.1);
  made = tt;
  distinct = tt;
}
WorkerReach-IsSound (follows r step) = WorkerStep-IsSound step (WorkerReach-IsSound r)

-- Each call to the worker is settled at most once, and only after it was made: whatever calls are
-- made, with whatever ids, whatever messages come and however callbacks are added and removed.
pub WorkerReach-AreDistinct :
    {R : Type 0} {w : Worker R}
    → WorkerReach w
    → AreDistinct w.settled × All (λ t. t.0 < w.calls) w.settled
WorkerReach-AreDistinct reach =
    let sound = WorkerReach-IsSound reach in (sound.distinct, sound.made)
