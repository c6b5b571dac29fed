-- ===== src/TaskLooper/Invariant.antt =====
-- Every interleaving of calls of a looper (TaskLooper.ts), tasks that end and timers that fire.
use qwertycoin_ts.Common.{
  ℕ, suc, ◌+◌, ◌≤◌, ◌≡◌, refl, sym, ap, ◌∙◌, ◌⊎◌, inl, inr, Bool, true, List, [], ◌∷◌, ◌++◌, some,
  arith, length, subst, All, All-append, All-left, All-right, ◌==◌, if◌then◌else◌,
}
use qwertycoin_ts.Common.Result.{ok}
use qwertycoin_ts.TaskLooper.{
  TaskLooper, Activation, Timer, new_looper, start, set_period_in_ms, stop, task_done, timer_fired,
}

-- What may happen next. The task of any activation may end or throw; a throw rejects the promise
-- of `_runLoop`, and nothing of the activation runs again.
pub data Step (l : TaskLooper) : TaskLooper → Type 0 where
  starts :
      (period : ℕ) (target : Bool) {l' : TaskLooper} → start l period target ≡ ok l' → Step l l'
  sets_period : (period : ℕ) {l' : TaskLooper} → set_period_in_ms l period ≡ ok l' → Step l l'
  stops : Step l (stop l)
  done :
      (before : List Activation) (a : Activation) (later : List Activation) (elapsed : ℕ)
      → l.running ≡ before ++ a ∷ later
      → Step l (task_done (record l { running = before ++ later }) a elapsed)
  throws :
      (before : List Activation) (a : Activation) (later : List Activation)
      → l.running ≡ before ++ a ∷ later
      → Step l (record l { running = before ++ later })
  fires :
      (before : List Timer) (t : Timer) (later : List Timer)
      → l.timers ≡ before ++ t ∷ later
      → Step l (timer_fired l t)

pub data Reach (l : TaskLooper) : TaskLooper → Type 0 where
  here : Reach l l
  next : {m n : TaskLooper} → Reach l m → Step m n → Reach l n

-- The activations of a loop id that await their task.
abbrev pub count : ℕ → List Activation → ℕ
count i [] = 0
count i (a ∷ as') = if a.loop_id == i then suc (count i as') else count i as'

abbrev pub NoneAbove : ℕ → List Activation → Type 0
NoneAbove i as' = All (λ a. a.loop_id ≤ i) as'

-- At most one timer is pending: the one that `stop` clears, of the current loop.
abbrev pub IsCurrent : TaskLooper → List Timer → Type 0
IsCurrent l ts =
    (ts ≡ [])
    ⊎ ((t : Timer) × (ts ≡ t ∷ [])
        × (l.timeout ≡ some t.handle)
        × (t.loop.loop_id ≡ l.loop_id)
        × (l.is_started ≡ true))

pub record IsSound (l : TaskLooper) : Type 0 where
  pub one_loop : count l.loop_id l.running + length l.timers ≤ 1
  pub none_above : NoneAbove l.loop_id l.running
  pub one_timer : IsCurrent l l.timers

count-append : (i : ℕ) (xs ys : List Activation) → count i (xs ++ ys) ≡ count i xs + count i ys
count-append i [] ys = omega arith
count-append i (x ∷ xs) ys = ground (arith, count-append i xs ys)

pub count_above : (i : ℕ) (xs : List Activation) → NoneAbove i xs → count (suc i) xs ≡ 0
count_above i [] h = refl
count_above i (x ∷ xs) h = ground (arith, count_above i xs)

NoneAbove-suc : (i : ℕ) (xs : List Activation) → NoneAbove i xs → NoneAbove (suc i) xs
NoneAbove-suc i [] h = tt
NoneAbove-suc i (x ∷ xs) h = (omega arith, NoneAbove-suc i xs h.1)

start-IsSound :
    (l : TaskLooper) (period : ℕ) (target : Bool) (l' : TaskLooper)
    → start l period target ≡ ok l'
    → IsSound l
    → IsSound l'
unfolding start
start-IsSound l period target l' h s = ground (
  arith,
  count_above l.loop_id l.running s.none_above,
  NoneAbove-suc l.loop_id l.running s.none_above,
)

set_period-IsSound :
    (l : TaskLooper) (period : ℕ) (l' : TaskLooper)
    → set_period_in_ms l period ≡ ok l'
    → IsSound l
    → IsSound l'
unfolding set_period_in_ms
set_period-IsSound l period l' h s = ground arith

-- `stop` clears the only timer.
pub stop_clears : (l : TaskLooper) → IsSound l → (stop l).timers ≡ []
unfolding stop
stop_clears l s = ground arith

stop-IsSound : (l : TaskLooper) → IsSound l → IsSound (stop l)
unfolding stop
stop-IsSound l s = ground (arith, stop_clears l s)

pub count_removed :
    (i : ℕ) (before : List Activation) (a : Activation) (later : List Activation)
    → count i (before ++ a ∷ later) ≡ count i (before ++ later) + (if a.loop_id == i then 1 else 0)
count_removed i before a later =
    ground (arith, count-append i before (a ∷ later), count-append i before later)

NoneAbove-removed :
    (i : ℕ) (before : List Activation) (a : Activation) (later : List Activation)
    → NoneAbove i (before ++ a ∷ later)
    → NoneAbove i (before ++ later)
NoneAbove-removed i before a later h =
    All-append (λ x. x.loop_id ≤ i) before later (All-left _ before (a ∷ later) h)
      (All-right _ before (a ∷ later) h).1

NoneAbove-here :
    (i : ℕ) (before : List Activation) (a : Activation) (later : List Activation)
    → NoneAbove i (before ++ a ∷ later)
    → a.loop_id ≤ i
NoneAbove-here i before a later h = (All-right (λ x. x.loop_id ≤ i) before (a ∷ later) h).0

module _ (l : TaskLooper) (before : List Activation) (a : Activation) (later : List Activation)
    (e : l.running ≡ before ++ a ∷ later) (s : IsSound l) where
  fewer : NoneAbove l.loop_id (before ++ later)
  fewer = NoneAbove-removed l.loop_id before a later (subst (NoneAbove l.loop_id) e s.none_above)

  throws-IsSound : IsSound (record l { running = before ++ later })
  throws-IsSound = ground (arith, fewer, count_removed l.loop_id before a later)

  done-IsSound :
      (elapsed : ℕ) → IsSound (task_done (record l { running = before ++ later }) a elapsed)
  unfolding task_done
  done-IsSound elapsed = ground (arith, fewer, count_removed l.loop_id before a later)

eq_of_single {ℓ} :
    {A : Type ℓ} (before : List A) (t : A) (later : List A) (u : A)
    → before ++ t ∷ later ≡ u ∷ []
    → t ≡ u
eq_of_single [] t later u e = cc
eq_of_single (b ∷ []) t later u e = absurd (omega (arith, ap length e))
eq_of_single (b ∷ c ∷ bs) t later u e = absurd (omega (arith, ap length e))

-- A timer that is about to fire is the only one, and its loop is current.
pub only_timer :
    (l : TaskLooper) (before : List Timer) (t : Timer) (later : List Timer)
    → l.timers ≡ before ++ t ∷ later
    → IsSound l
    → (l.timers ≡ t ∷ []) × (t.loop.loop_id ≡ l.loop_id) × (l.is_started ≡ true)
only_timer l before t later e s = elim s.one_timer [
  | inl none_left ↦ absurd (impossible before (sym e ∙ none_left))
  | inr (u, single, handle, current, started) ↦
      let same = eq_of_single before t later u (sym e ∙ single) in
      (rw same single, rw same current, started)
]
  where
    impossible : (bs : List Timer) → bs ++ t ∷ later ≡ [] → ⊥
    impossible [] h = cc
    impossible (b ∷ bs) h = cc

module _ (l : TaskLooper) (before : List Timer) (t : Timer) (later : List Timer)
    (e : l.timers ≡ before ++ t ∷ later) (s : IsSound l) where
  fired-IsSound : IsSound (timer_fired l t)
  unfolding timer_fired
  fired-IsSound = ground (arith, only_timer l before t later e s)

-- Every step keeps a looper sound: at most one activation of the current loop id awaits its task or
-- sleeps, no activation has a later id, and a pending timer is the only one, belongs to the current
-- loop of a started looper, and is the one that `stop` clears.
pub Step-IsSound : {l m : TaskLooper} → Step l m → IsSound l → IsSound m
Step-IsSound {l} {m} (starts period target e) s = start-IsSound l period target m e s
Step-IsSound {l} {m} (sets_period period e) s = set_period-IsSound l period m e s
Step-IsSound {l} stops s = stop-IsSound l s
Step-IsSound {l} (done before a later elapsed e) s = done-IsSound l before a later e s elapsed
Step-IsSound {l} (throws before a later e) s = throws-IsSound l before a later e s
Step-IsSound {l} (fires before t later e) s = fired-IsSound l before t later e s

pub new_looper-IsSound : IsSound new_looper
unfolding new_looper
new_looper-IsSound = ground arith

-- In every state that a new looper reaches, at most one activation of the current loop awaits its task
-- or sleeps, and no activation is of a later loop. A timer that is pending is the only one, the one
-- that `stop` clears, and of the current loop of a started looper.
pub Reach-IsSound : {l : TaskLooper} → Reach new_looper l → IsSound l
Reach-IsSound here = new_looper-IsSound
Reach-IsSound (next r st) = Step-IsSound st (Reach-IsSound r)
