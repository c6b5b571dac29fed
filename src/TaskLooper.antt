-- ===== src/TaskLooper.antt =====
-- src/main/ts/common/TaskLooper.ts. The activations of `_runLoop` are explicit: `running` are those
-- that await the task, `timers` those that sleep. A timer handle is a number, as is a loop id.
pub mod Invariant
pub mod Quiet
pub mod Alive
use qwertycoin_ts.Common.{
  ℕ, suc, ◌+◌, ◌-◌, ◌≡◌, Bool, true, false, ◌&&◌, List, [], ◌∷◌, Option, none, some, leb, ◌==◌,
  if◌then◌else◌,
}
use qwertycoin_ts.Common.Result.{Result, ok, err}

pub data LooperError : Type 0 where
  period_not_positive : LooperError

-- An activation of `_runLoop`.
pub record Activation : Type 0 where
  pub loop_id : ℕ
  pub target_fixed_period : Bool

pub record Timer : Type 0 where
  pub handle : ℕ
  pub delay_ms : ℕ
  pub loop : Activation

pub record TaskLooper : Type 0 where
  pub is_started : Bool
  pub is_looping : Bool
  pub period_in_ms : ℕ
  pub timeout : Option ℕ
  pub loop_id : ℕ
  pub running : List Activation
  pub timers : List Timer
  pub next_handle : ℕ
  -- How often the task was invoked.
  pub invoked : ℕ

-- The constructor; `_periodInMs` is undefined until `start`.
unfoldable pub new_looper : TaskLooper
new_looper = record {
  is_started = false;
  is_looping = false;
  period_in_ms = 0;
  timeout = none;
  loop_id = 0;
  running = [];
  timers = [];
  next_handle = 0;
  invoked = 0;
}

-- The head of the `while` loop: invoke the task and await it, or leave the loop.
unfoldable pub loop_head : TaskLooper → Activation → TaskLooper
loop_head l a =
    if l.is_started && a.loop_id == l.loop_id
    then record l { running = a ∷ l.running; invoked = l.invoked + 1 }
    else record l { is_looping = if a.loop_id == l.loop_id then false else l.is_looping }

-- `_runLoop` up to its first `await`.
unfoldable pub run_loop : TaskLooper → Activation → TaskLooper
unfolding loop_head
run_loop l a = loop_head (record l { is_looping = true }) a

unfoldable pub set_period_in_ms : TaskLooper → ℕ → Result LooperError TaskLooper
set_period_in_ms l period =
    if leb period 0 then err period_not_positive else ok (record l { period_in_ms = period })

unfoldable pub start : TaskLooper → ℕ → Bool → Result LooperError TaskLooper
unfolding run_loop
start l period target =
    if leb period 0
    then err period_not_positive
    else let l = record l { period_in_ms = period } in
      if l.is_started
      then ok l
      else ok (
          run_loop (record l { is_started = true; loop_id = suc l.loop_id })
            (record { loop_id = suc l.loop_id; target_fixed_period = target }))

-- `clearTimeout`; an unknown or undefined handle is ignored.
abbrev pub clear_handle : ℕ → List Timer → List Timer
clear_handle h [] = []
clear_handle h (t ∷ ts) = if t.handle == h then clear_handle h ts else t ∷ clear_handle h ts

abbrev pub clear_timeout : Option ℕ → List Timer → List Timer
clear_timeout none ts = ts
clear_timeout (some h) ts = clear_handle h ts

unfoldable pub stop : TaskLooper → TaskLooper
stop l = record l { is_started = false; timers = clear_timeout l.timeout l.timers; timeout = none }

-- `setTimeout` clamps a negative delay, as `-` does here.
abbrev delay : TaskLooper → Activation → ℕ → ℕ
delay l a elapsed = l.period_in_ms - (if a.target_fixed_period then elapsed else 0)

-- The rest of the loop body, once the task is done: sleep if the loop is still current.
unfoldable pub task_done : TaskLooper → Activation → ℕ → TaskLooper
unfolding loop_head
task_done l a elapsed =
    if l.is_started && a.loop_id == l.loop_id
    then record l {
      timeout = some l.next_handle;
      next_handle = l.next_handle + 1;
      timers = record { handle = l.next_handle; delay_ms = delay l a elapsed; loop = a } ∷ l.timers;
    }
    else loop_head l a

-- The promise of the sleep resolves, and the loop goes on at its head.
unfoldable pub timer_fired : TaskLooper → Timer → TaskLooper
unfolding loop_head
timer_fired l t = loop_head (record l { timers = clear_handle t.handle l.timers }) t.loop
