-- ===== src/Tests/Worker.antt =====
-- Calls to the web worker at concrete inputs (LibraryUtils.ts).
use qwertycoin_ts.Common.{
  ℕ, ◌≡◌, ◌<◌, refl, true, false, [], ◌∷◌, none, some, Text, codes, arith, All,
}
use qwertycoin_ts.Common.Result.{ok, err}
use qwertycoin_ts.Worker.{
  ThrownError, monero_rpc_error, thrown_error, Worker, invoke_worker, on_message, respond,
  settle_response, insert_at, no_callbacks, reply,
}
use qwertycoin_ts.Worker.Calls.{
  AreDistinct, new_worker, begins, follows, invokes, receives, WorkerReach-AreDistinct,
}
use qwertycoin_ts.Worker.Replies.{stays, goes_on, on_message-settles}
use qwertycoin_ts.Worker.Errors.{delivered, settle_response-respond}

-- Object 5 is called under id 8, then another object of its own under id 9.
abbrev first_call : Worker Text
first_call = invoke_worker (some 5) 0 8 new_worker

abbrev second_call : Worker Text
second_call = invoke_worker none 6 9 first_call

abbrev replied : Worker Text
replied = record second_call {
  objects = insert_at 6 none (
      insert_at 6 (some (insert_at 9 (some (reply 1 true)) no_callbacks))
        (insert_at 5 (some (insert_at 8 (some (reply 0 false)) no_callbacks)) (λ object. none)));
  settled = (1, codes "done") ∷ [];
}

second_replied : on_message 6 9 (codes "done") second_call ≡ ok replied
unfolding on_message invoke_worker
second_replied = refl

WorkerReach-AreDistinct_example :
    AreDistinct replied.settled × All (λ t. t.0 < replied.calls) replied.settled
WorkerReach-AreDistinct_example = WorkerReach-AreDistinct (
    follows (follows (follows begins (invokes (some 5) 0 8)) (invokes none 6 9))
      (receives 6 9 (codes "done") second_replied))

on_message-settles_example :
    (u : Worker Text) × (on_message 5 8 (codes "late") second_call ≡ ok u)
    × (u.settled ≡ (0, codes "late") ∷ second_call.settled)
on_message-settles_example =
    on_message-settles new_worker second_call (some 5) 0 8 (codes "late")
      (goes_on stays (invokes none 6 9) (omega arith))

abbrev refused : ThrownError
refused = record {
  name = codes "Error";
  message = codes "Wallet is closed";
  code = some 3;
  stack = [];
  error_class = monero_rpc_error (some (codes "get_info")) none;
}

settle_response-respond_example :
    settle_response
      (λ s. s)
      (λ s. s)
      (λ stack. stack)
      (some (respond {A = ℕ} [] (err (thrown_error refused))))
    ≡ delivered (λ stack. stack) [] (err (thrown_error refused))
settle_response-respond_example =
    settle_response-respond (λ s. s) (λ s. s) (λ stack. stack) [] (err (thrown_error refused))
      (λ s. refl)
