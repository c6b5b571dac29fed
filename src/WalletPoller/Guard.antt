-- ===== src/WalletPoller/Guard.antt =====
-- The polls of `WalletPoller` (wallet/MoneroWalletRpc.ts) in its pool of one thread. `numPolling`
-- counts those that run or wait, but a poll counts itself down before its task ends: in between, while
-- a failed one asks for the wallet's path, another may begin. A poll is known by a number.
use qwertycoin_ts.Common.{
  ℕ, ◌+◌, ◌-◌, ◌≤◌, ◌<◌, ◌≡◌, refl, Bool, true, false, List, [], ◌∷◌, arith, length, length-append,
  ltb, Bool-cases, inl, inr, if◌then◌else◌,
}
use qwertycoin_ts.ThreadPool.{ThreadPool, Effect, submit, settle, process_next, process_queue}

-- Whether the poll that runs has counted itself down is no field of the source: it is where its
-- task stands.
pub record Polling : Type 0 where
  pub num_polling : ℕ
  pub pool : ThreadPool
  pub counted_down : Bool

-- The constructor, with `new ThreadPool(1)`.
abbrev pub new_polling : Polling
new_polling = record {
  num_polling = 0;
  pool = record { max_concurrency = 1; num_running = 0; queue = []; drain_listeners = [] };
  counted_down = false;
}

-- `poll`, which is skipped if the next poll is queued.
unfoldable pub begin_poll : Polling → ℕ → Polling × List Effect
begin_poll g task =
    if ltb 1 g.num_polling
    then (g, [])
    else let (pool, effects) = submit g.pool task in
      (record g { num_polling = g.num_polling + 1; pool = pool }, effects)

-- `numPolling--`, which each end of the task does once, the `catch` before its last wait.
unfoldable pub count_down : Polling → Polling
count_down g = record g { num_polling = g.num_polling - 1; counted_down = true }

-- The task is over, and its promise settles.
unfoldable pub settle_poll : Polling → Polling × List Effect
settle_poll g =
    let (pool, effects) = settle g.pool in (record g { pool = pool; counted_down = false }, effects)

pub data Step (g : Polling) : Polling → Type 0 where
  polls : (task : ℕ) → Step g (begin_poll g task).0
  counts_down : 0 < g.pool.num_running → g.counted_down ≡ false → Step g (count_down g)
  ends : 0 < g.pool.num_running → g.counted_down ≡ true → Step g (settle_poll g).0

pub data Reach : Polling → Type 0 where
  here : Reach new_polling
  next : (g h : Polling) → Reach g → Step g h → Reach h

-- The polls that run and are no longer counted.
abbrev pub uncounted : Bool → ℕ
uncounted true = 1
uncounted false = 0

pub record IsGuarded (g : Polling) : Type 0 where
  pub one_thread : g.pool.max_concurrency ≡ 1
  pub counted : g.num_polling + uncounted g.counted_down ≡ g.pool.num_running + length g.pool.queue
  pub one_runs : g.pool.num_running ≤ 1
  pub uncounted_runs : uncounted g.counted_down ≤ g.pool.num_running
  pub few_wait : length g.pool.queue ≤ g.pool.num_running + uncounted g.counted_down
  pub few_counted : g.num_polling ≤ 2

submit-IsGuarded :
    (n : ℕ) (p : ThreadPool) (b : Bool) (task : ℕ)
    → n ≤ 1
    → IsGuarded (record { num_polling = n; pool = p; counted_down = b })
    → IsGuarded (record { num_polling = n + 1; pool = (submit p task).0; counted_down = b })
unfolding submit
submit-IsGuarded n p b task few i = record {
  one_thread = ground (arith, i.one_thread);
  counted = ground (arith, i.counted, length-append p.queue (task ∷ []));
  one_runs = ground (arith, i.one_runs, i.one_thread);
  uncounted_runs = ground (arith, i.uncounted_runs, i.one_runs, i.one_thread);
  few_wait = ground (
    arith,
    i.counted,
    i.few_wait,
    i.one_runs,
    i.uncounted_runs,
    i.one_thread,
    length-append p.queue (task ∷ []),
  );
  few_counted = omega arith;
}

begin_poll-IsGuarded : (g : Polling) (task : ℕ) → IsGuarded g → IsGuarded (begin_poll g task).0
unfolding begin_poll
begin_poll-IsGuarded g task i = elim (Bool-cases (ltb 1 g.num_polling)) [
  | inl e ↦ rw e i
  | inr e ↦ rw e (submit-IsGuarded g.num_polling g.pool g.counted_down task (ground arith) i)
]

count_down-IsGuarded :
    (n : ℕ) (p : ThreadPool) (b : Bool)
    → 0 < p.num_running
    → b ≡ false
    → IsGuarded (record { num_polling = n; pool = p; counted_down = b })
    → IsGuarded (count_down (record { num_polling = n; pool = p; counted_down = b }))
unfolding count_down
count_down-IsGuarded n p true busy e i = absurd (cc)
count_down-IsGuarded n p false busy e i = record {
  one_thread = i.one_thread;
  counted = omega (arith, i.counted);
  one_runs = i.one_runs;
  uncounted_runs = omega arith;
  few_wait = omega (arith, i.few_wait);
  few_counted = omega (arith, i.few_counted);
}

process_queue-IsGuarded :
    (n : ℕ) (p : ThreadPool) (queue : List ℕ)
    → p.max_concurrency ≡ 1
    → p.num_running ≡ 0
    → n ≡ length queue
    → length queue ≤ 2
    → p.queue ≡ queue
    → IsGuarded (record { num_polling = n; pool = (process_queue queue p).0; counted_down = false })
unfolding process_queue
process_queue-IsGuarded n p [] m z c w q = record {
  one_thread = ground arith;
  counted = ground arith;
  one_runs = ground arith;
  uncounted_runs = omega arith;
  few_wait = ground arith;
  few_counted = omega arith;
}
process_queue-IsGuarded n p (t ∷ ts) m z c w q = record {
  one_thread = m;
  counted = omega arith;
  one_runs = omega arith;
  uncounted_runs = omega arith;
  few_wait = omega arith;
  few_counted = omega arith;
}

settle_poll-IsGuarded :
    (n : ℕ) (p : ThreadPool) (b : Bool)
    → b ≡ true
    → IsGuarded (record { num_polling = n; pool = p; counted_down = b })
    → IsGuarded (settle_poll (record { num_polling = n; pool = p; counted_down = b })).0
unfolding settle_poll settle process_next
settle_poll-IsGuarded n p false e i = absurd (cc)
settle_poll-IsGuarded n p true e i =
    process_queue-IsGuarded n (record p { num_running = p.num_running - 1 }) p.queue i.one_thread
      (omega (arith, i.one_runs)) (omega (arith, i.counted, i.one_runs, i.uncounted_runs))
      (omega (arith, i.few_wait, i.one_runs)) refl

-- However polls begin, count themselves down and end, at most one of them runs, and none waits while
-- none runs. `numPolling` is the number of those that run or wait, less the one that runs if it has
-- counted itself down, and at most 2. One more at most waits for the poll that runs, and two once
-- that has counted itself down.
pub Reach-IsGuarded : (g : Polling) → Reach g → IsGuarded g
Reach-IsGuarded _ here = record {
  one_thread = refl;
  counted = refl;
  one_runs = omega arith;
  uncounted_runs = omega arith;
  few_wait = omega arith;
  few_counted = omega arith;
}
Reach-IsGuarded _ (next g _ r (polls task)) = begin_poll-IsGuarded g task (Reach-IsGuarded g r)
Reach-IsGuarded _ (next g _ r (counts_down busy e)) =
    count_down-IsGuarded g.num_polling g.pool g.counted_down busy e (Reach-IsGuarded g r)
Reach-IsGuarded _ (next g _ r (ends busy e)) =
    settle_poll-IsGuarded g.num_polling g.pool g.counted_down e (Reach-IsGuarded g r)
