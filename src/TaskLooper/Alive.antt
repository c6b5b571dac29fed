-- ===== src/TaskLooper/Alive.antt =====
-- When a started looper (TaskLooper.ts) goes on, and when it is dead for good.
use qwertycoin_ts.Common.{ℕ, ◌+◌, ◌<◌, ◌≡◌, Bool, true, List, ◌∷◌, ◌++◌, arith, length}
use qwertycoin_ts.Common.Result.{ok}
use qwertycoin_ts.TaskLooper.{
  TaskLooper, Activation, stop, task_done, timer_fired, new_looper, start, set_period_in_ms,
}
use qwertycoin_ts.TaskLooper.Invariant.{
  Step, starts, sets_period, stops, done, throws, fires, count, count_above, count_removed, IsSound,
  only_timer, new_looper-IsSound, Step-IsSound,
}

abbrev pub NeverThrows : {l m : TaskLooper} → Step l m → Type 0
NeverThrows (throws before a later e) = ⊥
NeverThrows (sets_period period e) = Unit
NeverThrows _ = Unit

-- Steps in which no task throws.
pub data Safely (l : TaskLooper) : TaskLooper → Type 0 where
  unchanged : Safely l l
  and_then : {m n : TaskLooper} → Safely l m → (st : Step m n) → NeverThrows st → Safely l n

-- The activations of the current loop, awaiting the task or asleep.
abbrev pub live : TaskLooper → ℕ
live l = count l.loop_id l.running + length l.timers

abbrev IsAlive : TaskLooper → Type 0
IsAlive l = l.is_started ≡ true → live l ≡ 1

Step-IsAlive :
    {l m : TaskLooper} (st : Step l m) → NeverThrows st → IsSound l → IsAlive l → IsAlive m
unfolding start set_period_in_ms stop task_done timer_fired
Step-IsAlive {l} (starts period target e) h s a =
    ground (arith, count_above l.loop_id l.running s.none_above)
Step-IsAlive (sets_period period e) h s a = ground arith
Step-IsAlive stops h s a = ground arith
Step-IsAlive {l} (done before a later elapsed e) h s alive =
    ground (arith, count_removed l.loop_id before a later)
Step-IsAlive (throws before a later e) h s alive = absurd h
Step-IsAlive {l} (fires before t later e) h s alive =
    ground (arith, only_timer l before t later e s)

Safely-IsAlive : {l : TaskLooper} → Safely new_looper l → IsSound l × IsAlive l
unfolding new_looper
Safely-IsAlive unchanged = (new_looper-IsSound, λ h. cc)
Safely-IsAlive (and_then r st h) =
    let (sound, alive) = Safely-IsAlive r in (Step-IsSound st sound, Step-IsAlive st h sound alive)

-- As long as no task has thrown, a started looper has exactly one activation of its current loop,
-- which awaits the task or sleeps.
pub started-live : {l : TaskLooper} → Safely new_looper l → l.is_started ≡ true → live l ≡ 1
started-live r h = (Safely-IsAlive r).1 h

-- When the first task to throw is that of a started looper's activation of the current loop, no
-- activation of the current loop is left and none sleeps, though the looper still counts as
-- started, and `start` then sets the period and does nothing else. An activation of an earlier loop
-- may still await its task.
pub throws_kills :
    {l : TaskLooper} (before : List Activation) (a : Activation) (later : List Activation)
    (period : ℕ) (target : Bool)
    → Safely new_looper l
    → l.running ≡ before ++ a ∷ later
    → a.loop_id ≡ l.loop_id
    → l.is_started ≡ true
    → 0 < period
    → let m = record l { running = before ++ later } in
      (live m ≡ 0) × (start m period target ≡ ok (record m { period_in_ms = period }))
unfolding start
throws_kills {l} before a later period target r e current started positive =
    ground (arith, started-live r started, count_removed l.loop_id before a later)
