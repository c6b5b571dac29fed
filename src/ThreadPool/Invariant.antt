-- ===== src/ThreadPool/Invariant.antt =====
-- Every history of a pool (ThreadPool.ts): submissions, settled tasks and waits in any order.
use mathlib.Core.List.{append_assoc, append-nil}
use qwertycoin_ts.Common.{
  ℕ, zero, suc, ◌+◌, ◌≤◌, ◌<◌, ◌≡◌, refl, ap, ◌⊎◌, List, [], ◌∷◌, ◌++◌, map, Option, none, some,
  arith, length,
}
use qwertycoin_ts.Common.Result.{ok}
use qwertycoin_ts.ThreadPool.{
  ThreadPool, Effect, start, notify, new_pool, submit, settle, await_all,
}

-- The tasks that a list of effects starts, and the listeners that it notifies.
abbrev pub starts : List Effect → List ℕ
starts [] = []
starts (start t ∷ es) = t ∷ starts es
starts (notify l ∷ es) = starts es

abbrev pub notified : List Effect → List ℕ
notified [] = []
notified (start t ∷ es) = notified es
notified (notify l ∷ es) = l ∷ notified es

-- The pool and its history. `active` counts the started tasks that have not settled.
pub record History : Type 0 where
  pub pool : ThreadPool
  pub active : ℕ
  pub submitted : List ℕ
  pub started : List ℕ
  pub awaiting : List ℕ
  pub woken : List ℕ

pub data Event : Type 0 where
  submits : ℕ → Event
  settles : Event
  awaits : ℕ → Event

abbrev after : History → ThreadPool × List Effect → History
after h (p, es) = record h {
  pool = p;
  active = h.active + length (starts es);
  started = h.started ++ starts es;
  woken = h.woken ++ notified es;
}

settle_active : ℕ → History → History
settle_active zero h = h
settle_active (suc n) h = after (record h { active = n }) (settle h.pool)

-- A task can settle only while one is active.
unfoldable pub step : History → Event → History
unfolding settle_active
step h (submits t) = after (record h { submitted = h.submitted ++ t ∷ [] }) (submit h.pool t)
step h settles = settle_active h.active h
step h (awaits l) = after (record h { awaiting = h.awaiting ++ l ∷ [] }) (await_all h.pool l)

unfoldable pub run : History → List Event → History
run h [] = h
run h (e ∷ es) = run (step h e) es

abbrev pub begin : ThreadPool → History
begin p = record { pool = p; active = 0; submitted = []; started = []; awaiting = []; woken = [] }

pub record IsSound (h : History) : Type 0 where
  pub positive : 0 < h.pool.max_concurrency
  pub counted : h.pool.num_running ≡ h.active
  pub bounded : h.pool.num_running ≤ h.pool.max_concurrency
  -- No slot is free while a task waits.
  pub busy : (h.pool.queue ≡ []) ⊎ (h.pool.num_running ≡ h.pool.max_concurrency)
  -- Tasks start in the order of submission, each once.
  pub in_order : h.started ++ h.pool.queue ≡ h.submitted
  -- Nobody waits on an idle pool, and nobody who waits is forgotten.
  pub waits : (h.pool.drain_listeners ≡ []) ⊎ (0 < h.pool.num_running)
  pub kept : h.woken ++ h.pool.drain_listeners ≡ h.awaiting

pub starts-map_notify : (ls : List ℕ) → starts (map notify ls) ≡ []
starts-map_notify [] = refl
starts-map_notify (l ∷ ls) = starts-map_notify ls

notified-map_notify : (ls : List ℕ) → notified (map notify ls) ≡ ls
notified-map_notify [] = refl
notified-map_notify (l ∷ ls) = ap (◌∷◌ l) (notified-map_notify ls)

submit-IsSound : (h : History) (t : ℕ) → IsSound h → IsSound (step h (submits t))
unfolding step submit
submit-IsSound h t s = ground (
  arith,
  append-nil h.started,
  append-nil (h.started ++ t ∷ []),
  append-nil h.woken,
  append_assoc h.started h.pool.queue (t ∷ []),
)

await_all-IsSound : (h : History) (l : ℕ) → IsSound h → IsSound (step h (awaits l))
unfolding step await_all
await_all-IsSound h l s = ground (
  arith,
  append-nil h.started,
  append-nil h.woken,
  append-nil (h.woken ++ l ∷ []),
  append_assoc h.woken h.pool.drain_listeners (l ∷ []),
)

settle-IsSound_queue :
    (h : History) (q : List ℕ) → h.pool.queue ≡ q → IsSound h → IsSound (step h settles)
unfolding step settle
settle-IsSound_queue h [] e s = ground (
  arith,
  append-nil h.started,
  append-nil h.woken,
  append-nil (h.woken ++ h.pool.drain_listeners),
  starts-map_notify h.pool.drain_listeners,
  notified-map_notify h.pool.drain_listeners,
)
settle-IsSound_queue h (x ∷ q) e s =
    ground (arith, append-nil h.woken, append_assoc h.started (x ∷ []) q)

settle-IsSound : (h : History) → IsSound h → IsSound (step h settles)
settle-IsSound h s = settle-IsSound_queue h h.pool.queue refl s

-- Every event keeps a pool sound: the running count is that of the active tasks and within the
-- maximum, no slot is free while a task waits, tasks start in the order in which they were
-- submitted, and a listener waits only while a task runs.
pub step-IsSound : (h : History) (e : Event) → IsSound h → IsSound (step h e)
step-IsSound h (submits t) s = submit-IsSound h t s
step-IsSound h settles s = settle-IsSound h s
step-IsSound h (awaits l) s = await_all-IsSound h l s

begin-IsSound : (n : Option ℕ) (p : ThreadPool) → new_pool n ≡ ok p → IsSound (begin p)
unfolding new_pool
begin-IsSound none p e = ground arith
begin-IsSound (some n) p e = ground arith

run-IsSound_from : (h : History) (es : List Event) → IsSound h → IsSound (run h es)
unfolding run
run-IsSound_from h [] s = s
run-IsSound_from h (e ∷ es) s = run-IsSound_from (step h e) es (step-IsSound h e s)

-- After any submissions, settled tasks and waits on a pool that the constructor accepted, the pool
-- counts exactly the tasks that run, no more than its maximum, which is positive; tasks start in the
-- order of submission, each once, and none waits while a slot is free; those who wait for the pool
-- are woken in their order, none is forgotten, and none waits on an idle pool.
pub run-IsSound :
    (n : Option ℕ) (p : ThreadPool) (es : List Event)
    → new_pool n ≡ ok p
    → IsSound (run (begin p) es)
run-IsSound n p es e = run-IsSound_from (begin p) es (begin-IsSound n p e)
