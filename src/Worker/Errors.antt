-- ===== src/Worker/Errors.antt =====
-- What a caller of the web worker gets of a result or of an error (LibraryUtils.ts,
-- QwertycoinWebWorker.ts).
use qwertycoin_ts.Common.{◌≡◌, ℕ, refl, ap, ◌∙◌, Option, none, some, Text, text_eq, codes}
use qwertycoin_ts.Common.Result.{Result, ok, err}
use qwertycoin_ts.Worker.{
  ErrorClass, error_itself, other_class, monero_error, monero_rpc_error, is_monero_error,
  ThrownError, SerializedError, serialize_error, deserialize_error, Thrown, thrown_error,
  thrown_value, as_error, respond, settle_response,
}

-- The class and the code that are left of an error on its way to the caller.
abbrev pub class_left : ErrorClass → ErrorClass
class_left error_itself = error_itself
class_left (other_class name) = error_itself
class_left monero_error = monero_error
class_left (monero_rpc_error method params) = monero_error

abbrev pub code_left : ErrorClass → Option ℕ → Option ℕ
code_left error_itself code = none
code_left (other_class name) code = none
code_left monero_error code = code
code_left (monero_rpc_error method params) code = code

-- The error that a caller gets.
abbrev pub received : (Text → Text) → ThrownError → ThrownError
received with_worker_stack e = record {
  name = e.name;
  message = e.message;
  code = code_left e.error_class e.code;
  stack = with_worker_stack e.stack;
  error_class = class_left e.error_class;
}

abbrev pub received_value : (Text → Text) → Text → Text → ThrownError
received_value with_worker_stack new_stack message = record {
  name = codes "Error";
  message = message;
  code = none;
  stack = with_worker_stack new_stack;
  error_class = error_itself;
}

abbrev pub delivered :
    {A : Type 0} → (Text → Text) → Text → Result Thrown A → Result ThrownError (Option A)
delivered with_worker_stack new_stack (err (thrown_error e)) = err (received with_worker_stack e)
delivered with_worker_stack new_stack (err (thrown_value message)) =
    err (received_value with_worker_stack new_stack message)
delivered with_worker_stack new_stack (ok a) = ok (some a)

deserialize_error-serialize_error :
    (with_worker_stack : Text → Text) (e : ThrownError)
    → deserialize_error with_worker_stack (serialize_error e) ≡ received with_worker_stack e
unfolding deserialize_error serialize_error is_monero_error text_eq
deserialize_error-serialize_error with_worker_stack e = by_class e.error_class
  where
    by_class :
        (c : ErrorClass)
        → deserialize_error with_worker_stack (serialize_error (record e { error_class = c }))
          ≡ received with_worker_stack (record e { error_class = c })
    by_class error_itself = refl
    by_class (other_class name) = refl
    by_class monero_error = refl
    by_class (monero_rpc_error method params) = refl

-- What the function in the worker returns or throws reaches the caller, if JSON can be read back: the
-- value, or an error of the same name and message, whose stack goes through that of the new error. A
-- `MoneroError` keeps its class and its code. A `MoneroRpcError` keeps its code, but comes back as a
-- `MoneroError`, without its method and parameters. Every other error comes back as an `Error`
-- without a code, as does a thrown value that is no error, whose message is that of `new Error`.
pub settle_response-respond :
    {A J : Type 0} (stringify : SerializedError → J) (parse : J → SerializedError)
    (with_worker_stack : Text → Text) (new_stack : Text) (returned : Result Thrown A)
    → ((s : SerializedError) → parse (stringify s) ≡ s)
    → settle_response stringify parse with_worker_stack (some (respond new_stack returned))
      ≡ delivered with_worker_stack new_stack returned
unfolding settle_response respond as_error
settle_response-respond stringify parse with_worker_stack new_stack (err (thrown_error e)) h =
    ap err (
      ap (deserialize_error with_worker_stack) (h (serialize_error e))
      ∙ deserialize_error-serialize_error with_worker_stack e)
settle_response-respond stringify parse with_worker_stack new_stack (err (thrown_value m)) h =
    ap err (
      ap (deserialize_error with_worker_stack)
        (h (serialize_error (as_error new_stack (thrown_value m))))
      ∙ deserialize_error-serialize_error with_worker_stack (as_error new_stack (thrown_value m)))
settle_response-respond stringify parse with_worker_stack new_stack (ok a) h = refl
