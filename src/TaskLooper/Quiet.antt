-- ===== src/TaskLooper/Quiet.antt =====
-- A stopped looper (TaskLooper.ts) is quiet until it is started again, and a timer never fires in vain.
use qwertycoin_ts.Common.{ℕ, ◌+◌, ◌≡◌, refl, sym, ◌∙◌, false, List, [], ◌∷◌, ◌++◌, arith}
use qwertycoin_ts.TaskLooper.{
  TaskLooper, Timer, stop, task_done, timer_fired, new_looper, set_period_in_ms,
}
use qwertycoin_ts.TaskLooper.Invariant.{
  Step, starts, sets_period, stops, done, throws, fires, Reach, only_timer, stop_clears,
  Reach-IsSound,
}

abbrev pub IsNoStart : {l m : TaskLooper} → Step l m → Type 0
IsNoStart (starts period target e) = ⊥
IsNoStart (sets_period period e) = Unit
IsNoStart _ = Unit

-- Any steps but successful calls of `start`.
pub data Quietly (l : TaskLooper) : TaskLooper → Type 0 where
  unchanged : Quietly l l
  and_then : {m n : TaskLooper} → Quietly l m → (st : Step m n) → IsNoStart st → Quietly l n

pub record IsQuiet (n : ℕ) (l : TaskLooper) : Type 0 where
  pub not_started : l.is_started ≡ false
  pub no_timers : l.timers ≡ []
  pub not_invoked : l.invoked ≡ n

no_timer_fires :
    (before : List Timer) (t : Timer) (later : List Timer) → ¬ (before ++ t ∷ later ≡ [])
no_timer_fires [] t later e = cc
no_timer_fires (b ∷ bs) t later e = cc

pub Step-IsQuiet :
    (n : ℕ) {l m : TaskLooper} (st : Step l m) → IsNoStart st → IsQuiet n l → IsQuiet n m
unfolding set_period_in_ms stop task_done
Step-IsQuiet n (starts period target e) h q = absurd h
Step-IsQuiet n (sets_period period e) h q = ground arith
Step-IsQuiet n stops h q = ground arith
Step-IsQuiet n (done before a later elapsed e) h q = ground arith
Step-IsQuiet n (throws before a later e) h q = ground arith
Step-IsQuiet n (fires before t later e) h q =
    absurd (no_timer_fires before t later (sym e ∙ q.no_timers))

Quietly-IsQuiet : (n : ℕ) {l m : TaskLooper} → Quietly l m → IsQuiet n l → IsQuiet n m
Quietly-IsQuiet n unchanged q = q
Quietly-IsQuiet n (and_then r st h) q = Step-IsQuiet n st h (Quietly-IsQuiet n r q)

-- From a `stop` on, the task is not invoked and no timer is pending until `start` is called again,
-- whatever else happens, the end of a task that was in progress included.
pub stop_quiet :
    {l m : TaskLooper}
    → Reach new_looper l
    → Quietly (stop l) m
    → (m.invoked ≡ l.invoked) × (m.timers ≡ [])
unfolding stop
stop_quiet {l} {m} r q =
    let quiet = Quietly-IsQuiet l.invoked q (record {
      not_started = refl;
      no_timers = stop_clears l (Reach-IsSound r);
      not_invoked = refl;
    }) in
    (quiet.not_invoked, quiet.no_timers)

-- In a reachable state a timer that fires invokes the task once.
pub timer_fired_invokes :
    {l : TaskLooper} (before : List Timer) (t : Timer) (later : List Timer)
    → Reach new_looper l
    → l.timers ≡ before ++ t ∷ later
    → (timer_fired l t).invoked ≡ l.invoked + 1
unfolding timer_fired
timer_fired_invokes {l} before t later r e =
    ground (arith, only_timer l before t later e (Reach-IsSound r))
