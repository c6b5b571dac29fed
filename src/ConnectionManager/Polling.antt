-- ===== src/ConnectionManager/Polling.antt =====
-- `startPolling` and `stopPolling` of MoneroConnectionManager.ts over the loopers of TaskLooper.antt. A
-- looper that is no longer the poller lives on while its task runs or a timer is pending.
use qwertycoin_ts.Common.{
  ℕ, ◌≡◌, refl, Bool, false, List, [], ◌∷◌, ◌++◌, Option, none, some, All, subst,
}
use qwertycoin_ts.Common.Result.{Result, ok, err}
use qwertycoin_ts.TaskLooper.{TaskLooper, LooperError, new_looper, start, stop}
use qwertycoin_ts.TaskLooper.Invariant.{Step, Reach, here, next, starts, Reach-IsSound, stop_clears}
use qwertycoin_ts.TaskLooper.Quiet.{IsNoStart, IsQuiet, Step-IsQuiet}
use qwertycoin_ts.ConnectionManager.{Manager, reset_manager, set_auto_switch, set_timeout}

pub data PollType : Type 0 where
  prioritized current all : PollType

-- What a poller checks, and its looper.
pub record ManagerPoller : Type 0 where
  pub poll_type : PollType
  pub looper : TaskLooper

pub record PolledManager : Type 0 where
  pub manager : Manager
  pub poller : Option ManagerPoller
  pub former : List TaskLooper

abbrev pub default_poll_period : ℕ
default_poll_period = 20000

abbrev pub not_polled : Manager → PolledManager
not_polled m = record { manager = m; poller = none; former = [] }

-- `if (this.poller) this.poller.stop()`, and the poller is undefined.
stop_poller : PolledManager → Option ManagerPoller → PolledManager
stop_poller p none = record p { poller = none }
stop_poller p (some q) = record p { poller = none; former = stop q.looper ∷ p.former }

unfoldable pub stop_polling : PolledManager → PolledManager
unfolding stop_poller
stop_polling p = stop_poller p p.poller

abbrev or_default : Option ℕ → ℕ
or_default none = default_poll_period
or_default (some period) = period

abbrev with_auto_switch : Option Bool → Manager → Manager
with_auto_switch none m = m
with_auto_switch (some b) m = set_auto_switch m b

abbrev with_timeout : Option ℕ → Manager → Manager
with_timeout none m = m
with_timeout (some t) m = set_timeout m t

abbrev or_prioritized : Option PollType → PollType
or_prioritized none = prioritized
or_prioritized (some t) = t

-- The poller is set before it is started, so it stays if `start` throws.
with_poller :
    PolledManager → PollType → Result LooperError TaskLooper → PolledManager × Option LooperError
with_poller p type (ok l) =
    (record p { poller = some (record { poll_type = type; looper = l }) }, none)
with_poller p type (err e) =
    (record p { poller = some (record { poll_type = type; looper = new_looper }) }, some e)

unfoldable pub start_polling :
    PolledManager
    → Option ℕ
    → Option Bool
    → Option ℕ
    → Option PollType
    → PolledManager × Option LooperError
unfolding stop_polling with_poller
start_polling p period auto_switch timeout type =
    let m = with_timeout timeout (with_auto_switch auto_switch p.manager) in
    with_poller (stop_polling (record p { manager = m })) (or_prioritized type)
      (start new_looper (or_default period) false)

-- `reset`. What it sets on the manager itself is `reset_manager`: it and `stopPolling` change
-- different fields, so their order does not matter.
unfoldable pub reset : PolledManager → PolledManager
unfolding stop_polling
reset p = let q = stop_polling p in record q { manager = reset_manager q.manager }

-- What may happen next: a call, a step of the poller's looper, or a step of a former one. The
-- manager starts no looper but in `startPolling`.
pub data PollStep (p : PolledManager) : PolledManager → Type 0 where
  starts_polling :
      (period : Option ℕ) (auto_switch : Option Bool) (timeout : Option ℕ) (type : Option PollType)
      → PollStep p (start_polling p period auto_switch timeout type).0
  stops_polling : PollStep p (stop_polling p)
  resets : PollStep p (reset p)
  polls :
      (q : ManagerPoller) {l : TaskLooper} (st : Step q.looper l)
      → p.poller ≡ some q
      → PollStep p (record p { poller = some (record q { looper = l }) })
  lingers :
      (before : List TaskLooper) (l : TaskLooper) (later : List TaskLooper) {l' : TaskLooper}
      (st : Step l l')
      → IsNoStart st
      → p.former ≡ before ++ l ∷ later
      → PollStep p (record p { former = before ++ l' ∷ later })

pub data PollReach (m : Manager) : PolledManager → Type 0 where
  begins : PollReach m (not_polled m)
  follows : {p q : PolledManager} → PollReach m p → PollStep p q → PollReach m q

-- A looper that is not started and has no timer.
abbrev pub IsIdle : TaskLooper → Type 0
IsIdle l = IsQuiet l.invoked l

abbrev PollerIsReached : Option ManagerPoller → Type 0
PollerIsReached none = Unit
PollerIsReached (some q) = Reach new_looper q.looper

-- The poller's looper is one that can come about, and the former ones are idle.
pub record IsWatched (p : PolledManager) : Type 0 where
  pub poller_reached : PollerIsReached p.poller
  pub former_idle : All IsIdle p.former

stop-IsIdle : (l : TaskLooper) → Reach new_looper l → IsIdle (stop l)
unfolding stop
stop-IsIdle l r = record {
  not_started = refl;
  no_timers = stop_clears l (Reach-IsSound r);
  not_invoked = refl;
}

stop_poller-IsWatched :
    (p : PolledManager) (q : Option ManagerPoller)
    → PollerIsReached q
    → All IsIdle p.former
    → IsWatched (stop_poller p q)
unfolding stop_poller
stop_poller-IsWatched p none r f = record { poller_reached = tt; former_idle = f }
stop_poller-IsWatched p (some q) r f = record {
  poller_reached = tt;
  former_idle = (stop-IsIdle q.looper r, f);
}

with_poller-IsWatched :
    (p : PolledManager) (type : PollType) (period : ℕ) (r : Result LooperError TaskLooper)
    → start new_looper period false ≡ r
    → All IsIdle p.former
    → IsWatched (with_poller p type r).0
unfolding with_poller
with_poller-IsWatched p type period (ok l) e f = record {
  poller_reached = next here (starts period false e);
  former_idle = f;
}
with_poller-IsWatched p type period (err e) h f = record { poller_reached = here; former_idle = f }

All-replaced :
    (P : TaskLooper → Type 0) (before : List TaskLooper) (l l' : TaskLooper)
    (later : List TaskLooper)
    → (P l → P l')
    → All P (before ++ l ∷ later)
    → All P (before ++ l' ∷ later)
All-replaced P [] l l' later f h = (f h.0, h.1)
All-replaced P (b ∷ before) l l' later f h = (h.0, All-replaced P before l l' later f h.1)

Step-IsIdle : {l l' : TaskLooper} (st : Step l l') → IsNoStart st → IsIdle l → IsIdle l'
Step-IsIdle {l} st h i =
    let q = Step-IsQuiet l.invoked st h i in
    record { not_started = q.not_started; no_timers = q.no_timers; not_invoked = refl }

PollStep-IsWatched : {p p' : PolledManager} → PollStep p p' → IsWatched p → IsWatched p'
unfolding start_polling stop_polling reset
PollStep-IsWatched {p} (starts_polling period auto_switch timeout type) w =
    let m = with_timeout timeout (with_auto_switch auto_switch p.manager) in
    let s =
      stop_poller-IsWatched (record p { manager = m }) p.poller w.poller_reached w.former_idle in
    with_poller-IsWatched (stop_poller (record p { manager = m }) p.poller) (or_prioritized type)
      (or_default period) _ refl s.former_idle
PollStep-IsWatched {p} stops_polling w =
    stop_poller-IsWatched p p.poller w.poller_reached w.former_idle
PollStep-IsWatched {p} resets w =
    let s = stop_poller-IsWatched p p.poller w.poller_reached w.former_idle in
    record { poller_reached = s.poller_reached; former_idle = s.former_idle }
PollStep-IsWatched {p} (polls q st e) w = record {
  poller_reached = next (subst PollerIsReached e w.poller_reached) st;
  former_idle = w.former_idle;
}
PollStep-IsWatched {p} (lingers before l later st h e) w = record {
  poller_reached = w.poller_reached;
  former_idle =
      All-replaced IsIdle before l _ later (Step-IsIdle st h) (subst (All IsIdle) e w.former_idle);
}

-- However polling is started, also anew while it goes on, and stopped or reset, and whatever the
-- loopers do, every looper but that of the current poller is not started and has no timer, so that
-- no two pollers go on at a time.
pub PollReach-IsWatched : (m : Manager) {p : PolledManager} → PollReach m p → IsWatched p
PollReach-IsWatched m begins = record { poller_reached = tt; former_idle = tt }
PollReach-IsWatched m (follows r st) = PollStep-IsWatched st (PollReach-IsWatched m r)
