-- ===== src/Tests/Async.antt =====
-- The pool, the looper and the connection at concrete inputs (ThreadPool.ts, TaskLooper.ts,
-- MoneroRpcConnection.ts).
use qwertycoin_ts.Common.{
  ℕ, ◌≡◌, ◌≢◌, ◌↔◌, ◌⊎◌, refl, true, false, List, [], ◌∷◌, none, some, arith, codes, Text, ◌≤◌,
  Option,
}
use qwertycoin_ts.Common.Result.{ok}
use qwertycoin_ts.ThreadPool.{ThreadPool, new_pool}
use qwertycoin_ts.ThreadPool.Invariant.{
  Event, submits, settles, awaits, run, begin, IsSound, run-IsSound,
}
use qwertycoin_ts.ThreadPool.Progress.{replicate, pending, IsIdle, drains}
use qwertycoin_ts.TaskLooper.{
  TaskLooper, Activation, Timer, new_looper, start, stop, task_done, timer_fired,
}
use qwertycoin_ts.TaskLooper
use qwertycoin_ts.TaskLooper.Invariant.{
  Step, Reach, here, next, starts, stops, done, fires, Reach-IsSound,
}
use qwertycoin_ts.TaskLooper.Quiet.{unchanged, and_then, stop_quiet}
use qwertycoin_ts.TaskLooper.Alive
use qwertycoin_ts.TaskLooper.Alive.{Safely, live, started-live, throws_kills}
use qwertycoin_ts.RpcConnection.{
  RpcConnection, reply, default_config, check_connection, is_connected,
}
use qwertycoin_ts.RpcConnection.Requests.{
  Parsed, HttpResponse, starts_with_brace, send_json_request, send_json_request-ok_iff,
}
use qwertycoin_ts.RpcConnection.Laws.{FailsWith, Succeeds, check_connection-connected_iff}

abbrev pair_pool : ThreadPool
pair_pool = record { max_concurrency = 2; num_running = 0; queue = []; drain_listeners = [] }

new_pair_pool : new_pool (some 2) ≡ ok pair_pool
unfolding new_pool
new_pair_pool = refl

abbrev events : List Event
events = submits 7 ∷ submits 8 ∷ submits 9 ∷ awaits 1 ∷ settles ∷ []

run-IsSound_example : IsSound (run (begin pair_pool) events)
run-IsSound_example = run-IsSound (some 2) pair_pool events new_pair_pool

drains_example : IsIdle (
    run (run (begin pair_pool) events) (replicate (pending (run (begin pair_pool) events)) settles))
drains_example = drains (some 2) pair_pool events new_pair_pool

abbrev first_loop : Activation
first_loop = record { loop_id = 1; target_fixed_period = false }

abbrev started : TaskLooper
started = record {
  is_started = true;
  is_looping = true;
  period_in_ms = 1000;
  timeout = none;
  loop_id = 1;
  running = first_loop ∷ [];
  timers = [];
  next_handle = 0;
  invoked = 1;
}

abbrev sleep : Timer
sleep = record { handle = 0; delay_ms = 1000; loop = first_loop }

start_new : start new_looper 1000 false ≡ ok started
unfolding start new_looper
start_new = refl

abbrev asleep : TaskLooper
asleep = record started { running = []; timeout = some 0; timers = sleep ∷ []; next_handle = 1 }

started_step : Step new_looper started
started_step = starts 1000 false start_new

asleep_step : Step started asleep
unfolding task_done
asleep_step = done [] first_loop [] 30 refl

asleep-Reach : Reach new_looper asleep
asleep-Reach = next (next here started_step) asleep_step

Reach-IsSound_example : TaskLooper.Invariant.IsSound asleep
Reach-IsSound_example = Reach-IsSound asleep-Reach

stop_quiet_example :
    ((stop (stop asleep)).invoked ≡ asleep.invoked) × ((stop (stop asleep)).timers ≡ [])
stop_quiet_example = stop_quiet asleep-Reach (and_then unchanged stops tt)

started-Safely : Safely new_looper started
unfolding started_step
started-Safely = Alive.and_then Alive.unchanged started_step tt

started-live_example : live asleep ≡ 1
unfolding asleep_step
started-live_example = started-live (Alive.and_then started-Safely asleep_step tt) refl

throws_kills_example :
    (live (record started { running = [] }) ≡ 0)
    × (start (record started { running = [] }) 500 true
        ≡ ok (record started { running = []; period_in_ms = 500 }))
throws_kills_example =
    throws_kills [] first_loop [] 500 true started-Safely refl refl refl (omega arith)

abbrev node : RpcConnection
node = record default_config { uri = some (codes "http://node:1") }

check_connection-connected_iff_example :
    (is_connected (check_connection node (reply 404 none) 20).0 ≢ none)
    × ((is_connected (check_connection node (reply 404 none) 20).0 ≡ some true) ↔ (
        (node.fake_disconnected ≡ false)
        × (Succeeds (reply 404 none) ⊎ FailsWith (reply 404 none) 404)))
check_connection-connected_iff_example = check_connection-connected_iff node (reply 404 none) 20

-- A parser that finds an object with no error and the number 7 in every body.
abbrev info : Parsed ℕ
info = record { error = none; rest = 7 }

abbrev finds_info : Text → Option (Parsed ℕ)
finds_info body = some info

abbrev brace_reply : HttpResponse
brace_reply = record { status_code = 200; body = codes "{}" }

send_json_request-ok_iff_example :
    (send_json_request finds_info (codes "get_info") (ok brace_reply) ≡ ok info) ↔ (
      (200 ≤ 200)
      × (200 ≤ 299)
      × (starts_with_brace (codes "{}") ≡ true)
      × (finds_info (codes "{}") ≡ some info)
      × (info.error ≡ none))
send_json_request-ok_iff_example =
    send_json_request-ok_iff finds_info (codes "get_info") brace_reply info

-- That reply is returned.
info_returned : send_json_request finds_info (codes "get_info") (ok brace_reply) ≡ ok info
unfolding starts_with_brace
info_returned = send_json_request-ok_iff_example.1 (omega arith, omega arith, refl, refl, refl)
