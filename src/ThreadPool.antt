-- ===== src/ThreadPool.antt =====
-- src/main/ts/common/ThreadPool.ts. The linked list between `queueHead` and `queueTail` is a list
-- with its head first; a task and a listener are known by a number. What a call hands to the
-- microtask queue or to a listener is its list of effects.
pub mod Invariant
pub mod Progress
use qwertycoin_ts.Common.{
  ℕ, ◌+◌, ◌-◌, ◌≡◌, Bool, true, false, ◌&&◌, List, [], ◌∷◌, ◌++◌, map, Option, none, some, ltb,
  ◌==◌, if◌then◌else◌,
}
use qwertycoin_ts.Common.Result.{Result, ok, err}

pub data PoolError : Type 0 where
  max_concurrency_too_small : PoolError

pub data Effect : Type 0 where
  start : ℕ → Effect
  notify : ℕ → Effect

pub record ThreadPool : Type 0 where
  pub max_concurrency : ℕ
  pub num_running : ℕ
  pub queue : List ℕ
  pub drain_listeners : List ℕ

abbrev with_max : ℕ → Result PoolError ThreadPool
with_max n =
    if ltb n 1
    then err max_concurrency_too_small
    else ok (record { max_concurrency = n; num_running = 0; queue = []; drain_listeners = [] })

-- The constructor; an undefined maximum is 1.
unfoldable pub new_pool : Option ℕ → Result PoolError ThreadPool
new_pool none = with_max 1
new_pool (some n) = with_max n

-- The body of the promise in `submit`.
unfoldable pub submit : ThreadPool → ℕ → ThreadPool × List Effect
submit p task =
    if ltb p.num_running p.max_concurrency
    then (record p { num_running = p.num_running + 1 }, start task ∷ [])
    else (record p { queue = p.queue ++ task ∷ [] }, [])

abbrev is_empty : List ℕ → Bool
is_empty [] = true
is_empty (_ ∷ _) = false

unfoldable pub process_queue : List ℕ → ThreadPool → ThreadPool × List Effect
process_queue (task ∷ rest) p =
    (record p { queue = rest; num_running = p.num_running + 1 }, start task ∷ [])
process_queue [] p =
    if p.num_running == 0
    then (record p { drain_listeners = [] }, map notify p.drain_listeners)
    else (p, [])

unfoldable pub process_next : ThreadPool → ThreadPool × List Effect
unfolding process_queue
process_next p = process_queue p.queue p

-- The `finally` of a task: it runs whether the task resolved or threw.
unfoldable pub settle : ThreadPool → ThreadPool × List Effect
unfolding process_next
settle p = process_next (record p { num_running = p.num_running - 1 })

-- `awaitAll`: resolved at once, or once a listener is called.
unfoldable pub await_all : ThreadPool → ℕ → ThreadPool × List Effect
await_all p listener =
    if (p.num_running == 0) && is_empty p.queue
    then (p, notify listener ∷ [])
    else (record p { drain_listeners = p.drain_listeners ++ listener ∷ [] }, [])
