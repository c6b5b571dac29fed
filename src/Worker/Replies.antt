-- ===== src/Worker/Replies.antt =====
-- A call to the web worker waits until its reply comes, whatever else happens, and is then settled.
use qwertycoin_ts.Common.{
  ℕ, ◌≡◌, ◌≢◌, ◌⊎◌, inl, inr, refl, sym, ap, ◌∙◌, subst, Bool, true, false, ◌∷◌, Option, none, some,
  ==_refl,
}
use qwertycoin_ts.Common.Result.{ok, ok-injective}
use qwertycoin_ts.Worker.{
  Callback, reply, notify, Callbacks, Worker, insert_at, callbacks_of, registered, set_callbacks,
  or_random, is_random, invoke_worker, after_reply, call_back, on_object, on_message, with_callback,
  add_worker_callback, remove_worker_callback, remove_worker_object,
}
use qwertycoin_ts.Worker.Calls.{
  WorkerStep, invokes, receives, adds_callback, removes_callback, removes_object, insert_at-cases,
  set_callbacks-registered,
}

-- The handler of a call that has an object of its own takes that object away.
abbrev pub IsShared : Option Callback → Type 0
IsShared (some (reply call true)) = ⊥
IsShared _ = Unit

abbrev pub IsElsewhere : ℕ → ℕ → ℕ → ℕ → Type 0
IsElsewhere object k object' k' = (object' ≢ object) ⊎ (k' ≢ k)

-- A step that is not about the callback k of an object: no call reuses the id, and nothing removes
-- the callback or the object.
abbrev pub Spares : {R : Type 0} {w v : Worker R} → ℕ → ℕ → WorkerStep w v → Type 0
Spares object k (invokes o object_uuid callback_uuid) = callback_uuid ≢ k
Spares {w = w} object k (receives object' k' response returned) =
    (object' ≢ object) ⊎ ((k' ≢ k) × IsShared (registered w object' k'))
Spares object k (adds_callback object' k' listener returned) = IsElsewhere object k object' k'
Spares object k (removes_callback object' k' returned) = IsElsewhere object k object' k'
Spares object k (removes_object object') = object' ≢ object

pub data Sparing {R : Type 0} (object k : ℕ) (w : Worker R) : Worker R → Type 0 where
  stays : Sparing object k w w
  goes_on :
      {v u : Worker R}
      → Sparing object k w v
      → (s : WorkerStep v u) → Spares object k s
      → Sparing object k w u

module _ {R : Type 0} (w : Worker R) (object k : ℕ) where
  registered-other :
      (object' : ℕ) (o : Option Callbacks)
      → object' ≢ object
      → registered (set_callbacks w object' o) object k ≡ registered w object k
  registered-other object' o other = elim (set_callbacks-registered w object' o object k) [
    | inl (same, here) ↦ absurd (other (sym same))
    | inr (apart, old) ↦ old
  ]

  registered-insert :
      (object' k' : ℕ) (new : Option Callback) (cbs : Callbacks)
      → callbacks_of (w.objects object') ≡ cbs
      → IsElsewhere object k object' k'
      → registered (set_callbacks w object' (some (insert_at k' new cbs))) object k
        ≡ registered w object k
  registered-insert object' k' new cbs held elsewhere =
      elim (set_callbacks-registered w object' (some (insert_at k' new cbs)) object k) [
        | inr (apart, old) ↦ old
        | inl (same, here) ↦ elim (insert_at-cases k' new cbs k) [
          | inr (other_k, is_old) ↦
              here
              ∙ is_old
              ∙ ap (λ c. c k) (sym held)
              ∙ ap (λ n. callbacks_of (w.objects n) k) (sym same)
          | inl (same_k, is_new) ↦
              absurd
                (elim elsewhere [ inl apart ↦ apart (sym same) | inr apart ↦ apart (sym same_k) ])
        ]
      ]

  call_back-registered :
      (object' k' : ℕ) (response : R) (cbs : Callbacks) (o : Option Callback) (v : Worker R)
      → callbacks_of (w.objects object') ≡ cbs
      → (object' ≢ object) ⊎ ((k' ≢ k) × IsShared o)
      → call_back w object' k' response cbs o ≡ ok v
      → registered v object k ≡ registered w object k
  unfolding call_back
  call_back-registered object' k' response cbs none v held apart returned = absurd (cc)
  call_back-registered object' k' response cbs (some (notify l)) v held apart returned =
      subst (λ v. registered v object k ≡ registered w object k) (ok-injective returned) refl
  call_back-registered object' k' response cbs (some (reply call true)) v held apart returned =
      subst (λ v. registered v object k ≡ registered w object k) (ok-injective returned)
        (elim apart [
          | inl other ↦ registered-other object' none other
          | inr (other_k, shared) ↦ absurd shared
        ])
  call_back-registered object' k' response cbs (some (reply call false)) v held apart returned =
      subst (λ v. registered v object k ≡ registered w object k) (ok-injective returned)
        (registered-insert object' k' none cbs held
          (elim apart [ inl other ↦ inl other | inr (other_k, shared) ↦ inr other_k ]))

  on_object-registered :
      (object' k' : ℕ) (response : R) (o : Option Callbacks) (v : Worker R)
      → w.objects object' ≡ o
      → (object' ≢ object) ⊎ ((k' ≢ k) × IsShared (callbacks_of o k'))
      → on_object w object' k' response o ≡ ok v
      → registered v object k ≡ registered w object k
  unfolding on_object
  on_object-registered object' k' response none v held apart returned = absurd (cc)
  on_object-registered object' k' response (some cbs) v held apart returned =
      call_back-registered object' k' response cbs (cbs k') v (ap callbacks_of held) apart returned

  with_callback-registered :
      (object' k' : ℕ) (new : Option Callback) (o : Option Callbacks) (v : Worker R)
      → w.objects object' ≡ o
      → IsElsewhere object k object' k'
      → with_callback w object' k' new o ≡ ok v
      → registered v object k ≡ registered w object k
  with_callback-registered object' k' new none v held apart returned = absurd (cc)
  with_callback-registered object' k' new (some cbs) v held apart returned =
      subst (λ v. registered v object k ≡ registered w object k) (ok-injective returned)
        (registered-insert object' k' new cbs (ap callbacks_of held) apart)

WorkerStep-registered :
    {R : Type 0} {w v : Worker R} (object k : ℕ) (s : WorkerStep w v)
    → Spares object k s
    → registered v object k ≡ registered w object k
unfolding invoke_worker on_message add_worker_callback remove_worker_callback remove_worker_object
WorkerStep-registered {w = w} object k (invokes o object_uuid callback_uuid) apart =
    registered-insert w object k (or_random o object_uuid) callback_uuid
      (some (reply w.calls (is_random o))) (callbacks_of (w.objects (or_random o object_uuid))) refl
      (inr apart)
WorkerStep-registered {w = w} object k (receives object' k' response {v} returned) apart =
    on_object-registered w object k object' k' response (w.objects object') v refl apart returned
WorkerStep-registered {w = w} object k (adds_callback object' k' listener {v} returned) apart =
    with_callback-registered w object k object' k' (some (notify listener)) (w.objects object') v
      refl apart returned
WorkerStep-registered {w = w} object k (removes_callback object' k' {v} returned) apart =
    with_callback-registered w object k object' k' none (w.objects object') v refl apart returned
WorkerStep-registered {w = w} object k (removes_object object') apart =
    registered-other w object k object' none apart

Sparing-registered :
    {R : Type 0} (object k : ℕ) {w v : Worker R}
    → Sparing object k w v
    → registered v object k ≡ registered w object k
Sparing-registered object k stays = refl
Sparing-registered object k (goes_on path s apart) =
    WorkerStep-registered object k s apart ∙ Sparing-registered object k path

-- A message for a handler that is registered settles its call.
on_object-settles :
    {R : Type 0} (w : Worker R) (object k call : ℕ) (random : Bool) (response : R)
    (o : Option Callbacks)
    → callbacks_of o k ≡ some (reply call random)
    → (v : Worker R) × (on_object w object k response o ≡ ok v)
      × (v.settled ≡ (call, response) ∷ w.settled)
unfolding on_object call_back
on_object-settles w object k call random response none at = absurd (cc)
on_object-settles w object k call random response (some cbs) at =
    let v = set_callbacks w object (after_reply random cbs k) in
    (
      record v { settled = (call, response) ∷ w.settled },
      ap (call_back w object k response cbs) at,
      refl,
    )

invoke_worker-registered :
    {R : Type 0} (w : Worker R) (o : Option ℕ) (object_uuid callback_uuid : ℕ)
    → registered
        (invoke_worker o object_uuid callback_uuid w)
        (or_random o object_uuid)
        callback_uuid
      ≡ some (reply w.calls (is_random o))
unfolding invoke_worker
invoke_worker-registered w o object_uuid callback_uuid =
    rw (==_refl (or_random o object_uuid), ==_refl callback_uuid) refl

-- A call that was made is settled by its reply, with the response in it: take a call of an object,
-- and any steps after it that do not reuse its callback id, and remove neither its callback nor its
-- object. Then the message for that callback is accepted, and it settles that call with its response
-- on top of those settled before.
pub on_message-settles :
    {R : Type 0} (w v : Worker R) (o : Option ℕ) (object_uuid callback_uuid : ℕ) (response : R)
    → Sparing
        (or_random o object_uuid)
        callback_uuid
        (invoke_worker o object_uuid callback_uuid w)
        v
    → (u : Worker R) × (on_message (or_random o object_uuid) callback_uuid response v ≡ ok u)
      × (u.settled ≡ (w.calls, response) ∷ v.settled)
unfolding on_message
on_message-settles w v o object_uuid callback_uuid response path =
    on_object-settles v (or_random o object_uuid) callback_uuid w.calls (is_random o) response
      (v.objects (or_random o object_uuid))
      (Sparing-registered (or_random o object_uuid) callback_uuid path
        ∙ invoke_worker-registered w o object_uuid callback_uuid)
