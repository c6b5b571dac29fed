-- ===== src/ThreadPool/Progress.antt =====
-- A pool (ThreadPool.ts) whose tasks all settle becomes idle.
use mathlib.Core.List.{append-nil}
use qwertycoin_ts.Common.{ℕ, zero, suc, ◌+◌, ◌≡◌, refl, List, [], ◌∷◌, Option, arith, length}
use qwertycoin_ts.Common.Result.{ok}
use qwertycoin_ts.ThreadPool.{ThreadPool, new_pool, settle}
use qwertycoin_ts.ThreadPool.Invariant.{
  History, Event, settles, step, run, begin, IsSound, step-IsSound, run-IsSound, starts-map_notify,
}

abbrev pub replicate : ℕ → Event → List Event
replicate zero e = []
replicate (suc n) e = e ∷ replicate n e

-- The tasks that have not settled.
abbrev pub pending : History → ℕ
pending h = h.active + length h.pool.queue

settle_pending_queue :
    (h : History) (q : List ℕ) (n : ℕ)
    → h.pool.queue ≡ q
    → IsSound h
    → pending h ≡ suc n
    → pending (step h settles) ≡ n
unfolding step settle
settle_pending_queue h [] n e s p = ground (arith, starts-map_notify h.pool.drain_listeners)
settle_pending_queue h (x ∷ q) n e s p = ground arith

pub record IsIdle (h : History) : Type 0 where
  pub none_running : h.pool.num_running ≡ 0
  pub none_queued : h.pool.queue ≡ []
  pub all_started : h.started ≡ h.submitted
  pub all_woken : h.woken ≡ h.awaiting

IsIdle-of_pending : (h : History) → IsSound h → pending h ≡ 0 → IsIdle h
IsIdle-of_pending h s p = ground (arith, append-nil h.started, append-nil h.woken)

settles-IsIdle :
    (n : ℕ) (h : History) → IsSound h → pending h ≡ n → IsIdle (run h (replicate n settles))
unfolding run
settles-IsIdle zero h s p = IsIdle-of_pending h s p
settles-IsIdle (suc n) h s p =
    settles-IsIdle n (step h settles) (step-IsSound h settles s)
      (settle_pending_queue h h.pool.queue n refl s p)

-- Once as many tasks have settled as were pending, after any events, nothing runs, nothing is
-- queued, every submitted task was started in the order of submission, and every listener that
-- awaited the pool was called, in the order of the calls.
pub drains :
    (n : Option ℕ) (p : ThreadPool) (es : List Event)
    → new_pool n ≡ ok p
    → IsIdle (run (run (begin p) es) (replicate (pending (run (begin p) es)) settles))
drains n p es e =
    settles-IsIdle (pending (run (begin p) es)) (run (begin p) es) (run-IsSound n p es e) refl
