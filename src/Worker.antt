-- ===== src/Worker.antt =====
-- The calls that go to the web worker: `invokeWorker`, the handler of the worker's messages and the
-- callbacks of common/LibraryUtils.ts, the reply of the worker in common/QwertycoinWebWorker.ts, and
-- the errors that pass between them. Object ids and callback ids are numbers. The random ones are
-- arguments.
pub mod Calls
pub mod Replies
pub mod Errors
use qwertycoin_ts.Common.{
  ℕ, suc, Bool, true, false, List, [], ◌∷◌, Option, none, some, ◌==◌, Text, text_eq, codes,
  if◌then◌else◌,
}
use qwertycoin_ts.Common.Result.{Result, ok, err}

-- The class of an error: `Error` itself, another class that is no `MoneroError`, by its name,
-- `MoneroError`, or its subclass `MoneroRpcError` with the method and the parameters as JSON text.
pub data ErrorClass : Type 0 where
  error_itself : ErrorClass
  other_class : Text → ErrorClass
  monero_error : ErrorClass
  monero_rpc_error : (rpc_method : Option Text) → (rpc_params : Option Text) → ErrorClass

-- `instanceof MoneroError`.
unfoldable pub is_monero_error : ErrorClass → Bool
is_monero_error error_itself = false
is_monero_error (other_class name) = false
is_monero_error monero_error = true
is_monero_error (monero_rpc_error method params) = true

pub record ThrownError : Type 0 where
  pub name : Text
  pub message : Text
  pub code : Option ℕ
  pub stack : Text
  pub error_class : ErrorClass

pub record SerializedError : Type 0 where
  pub name : Text
  pub message : Text
  pub code : Option ℕ
  pub stack : Text
  pub type : Option Text

unfoldable pub serialize_error : ThrownError → SerializedError
unfolding is_monero_error
serialize_error e = record {
  name = e.name;
  message = e.message;
  code = e.code;
  stack = e.stack;
  type = if is_monero_error e.error_class then some (codes "MoneroError") else none;
}

abbrev pub is_monero_type : Option Text → Bool
is_monero_type none = false
is_monero_type (some type) = text_eq type (codes "MoneroError")

-- The stack of the new error is an argument.
unfoldable pub deserialize_error : (Text → Text) → SerializedError → ThrownError
deserialize_error with_worker_stack s =
    let is_monero = is_monero_type s.type in
    record {
      name = s.name;
      message = s.message;
      code = if is_monero then s.code else none;
      stack = with_worker_stack s.stack;
      error_class = if is_monero then monero_error else error_itself;
    }

-- What a function of the worker throws: an error, or another value, by the message that `new Error`
-- makes of it.
pub data Thrown : Type 0 where
  thrown_error : ThrownError → Thrown
  thrown_value : Text → Thrown

-- `if (!(e instanceof Error)) e = new Error(e)`. The stack of the new error is an argument.
unfoldable pub as_error : Text → Thrown → ThrownError
as_error new_stack (thrown_error e) = e
as_error new_stack (thrown_value message) = record {
  name = codes "Error";
  message = message;
  code = none;
  stack = new_stack;
  error_class = error_itself;
}

-- What the worker posts back for a call, and what the caller gets of it.
pub record Response (A : Type 0) : Type 0 where
  pub error : Option SerializedError
  pub result : Option A

unfoldable pub respond : {A : Type 0} → Text → Result Thrown A → Response A
unfolding serialize_error as_error
respond new_stack (err e) = record {
  error = some (serialize_error (as_error new_stack e));
  result = none;
}
respond new_stack (ok a) = record { error = none; result = some a }

-- `JSON.stringify` and `JSON.parse` are arguments.
module _ {J : Type 0} (stringify : SerializedError → J) (parse : J → SerializedError) where
  unfoldable pub settle_response :
      {A : Type 0} → (Text → Text) → Option (Response A) → Result ThrownError (Option A)
  unfolding deserialize_error
  settle_response with_worker_stack none = ok none
  settle_response with_worker_stack (some r) = elim r.error [
    | none ↦ ok r.result
    | some e ↦ err (deserialize_error with_worker_stack (parse (stringify e)))
  ]

pub data WorkerError : Type 0 where
  type_error : WorkerError
  no_callback : ℕ → WorkerError

-- A callback: the handler of a reply, whose call may have an object of its own, or a listener.
pub data Callback : Type 0 where
  reply : (call : ℕ) → (random_object : Bool) → Callback
  notify : (listener : ℕ) → Callback

abbrev pub Callbacks : Type 0
Callbacks = ℕ → Option Callback

-- `WORKER_OBJECTS`, the calls so far, those that are settled with the response each got, and the
-- listeners that were called.
pub record Worker (R : Type 0) : Type 0 where
  pub objects : ℕ → Option Callbacks
  pub calls : ℕ
  pub settled : List (ℕ × R)
  pub notified : List (ℕ × R)

abbrev pub no_callbacks : Callbacks
no_callbacks k = none

abbrev pub insert_at {ℓ} : {A : Type ℓ} → ℕ → A → (ℕ → A) → ℕ → A
insert_at key a old k = if k == key then a else old k

abbrev pub callbacks_of : Option Callbacks → Callbacks
callbacks_of none = no_callbacks
callbacks_of (some cbs) = cbs

-- The callback that is registered for an object under an id.
abbrev pub registered : {R : Type 0} → Worker R → ℕ → ℕ → Option Callback
registered w object k = callbacks_of (w.objects object) k

abbrev pub set_callbacks : {R : Type 0} → Worker R → ℕ → Option Callbacks → Worker R
set_callbacks w object cbs = record w { objects = insert_at object cbs w.objects }

abbrev pub or_random : Option ℕ → ℕ → ℕ
or_random none uuid = uuid
or_random (some object) uuid = object

abbrev pub is_random : Option ℕ → Bool
is_random none = true
is_random (some object) = false

-- `invokeWorker` up to its wait for the reply.
unfoldable pub invoke_worker : {R : Type 0} → Option ℕ → ℕ → ℕ → Worker R → Worker R
invoke_worker object object_uuid callback_uuid w =
    let id = or_random object object_uuid in
    let cbs = callbacks_of (w.objects id) in
    let handler = reply w.calls (is_random object) in
    let v = set_callbacks w id (some (insert_at callback_uuid (some handler) cbs)) in
    record v { calls = suc w.calls }

abbrev pub after_reply : Bool → Callbacks → ℕ → Option Callbacks
after_reply true cbs k = none
after_reply false cbs k = some (insert_at k none cbs)

-- The callback is called: the handler of a reply deletes itself, and its object if that is its own.
unfoldable pub call_back :
    {R : Type 0}
    → Worker R
    → ℕ
    → ℕ
    → R
    → Callbacks
    → Option Callback
    → Result WorkerError (Worker R)
call_back w object k response cbs none = err (no_callback k)
call_back w object k response cbs (some (notify l)) =
    ok (record w { notified = (l, response) ∷ w.notified })
call_back w object k response cbs (some (reply call random)) =
    let v = set_callbacks w object (after_reply random cbs k) in
    ok (record v { settled = (call, response) ∷ w.settled })

unfoldable pub on_object :
    {R : Type 0} → Worker R → ℕ → ℕ → R → Option Callbacks → Result WorkerError (Worker R)
unfolding call_back
on_object w object k response none = err type_error
on_object w object k response (some cbs) = call_back w object k response cbs (cbs k)

-- The handler of the worker's messages.
unfoldable pub on_message : {R : Type 0} → ℕ → ℕ → R → Worker R → Result WorkerError (Worker R)
unfolding on_object
on_message object k response w = on_object w object k response (w.objects object)

abbrev pub with_callback :
    {R : Type 0}
    → Worker R
    → ℕ
    → ℕ
    → Option Callback
    → Option Callbacks
    → Result WorkerError (Worker R)
with_callback w object k callback none = err type_error
with_callback w object k callback (some cbs) =
    ok (set_callbacks w object (some (insert_at k callback cbs)))

unfoldable pub add_worker_callback :
    {R : Type 0} → ℕ → ℕ → ℕ → Worker R → Result WorkerError (Worker R)
add_worker_callback object k listener w =
    with_callback w object k (some (notify listener)) (w.objects object)

unfoldable pub remove_worker_callback :
    {R : Type 0} → ℕ → ℕ → Worker R → Result WorkerError (Worker R)
remove_worker_callback object k w = with_callback w object k none (w.objects object)

unfoldable pub remove_worker_object : {R : Type 0} → ℕ → Worker R → Worker R
remove_worker_object object w = set_callbacks w object none
