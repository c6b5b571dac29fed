-- ===== src/Daemon/Polling/Listening.antt =====
-- The daemon of daemon/MoneroDaemonRpc.ts is polled exactly while it has listeners.
use qwertycoin_ts.Common.{
  ℕ, zero, ◌<◌, ◌≡◌, inl, inr, refl, sym, subst, Bool, Bool-cases, true, false, List, Option, none,
  some, arith, length, leb, get_elem?, ==_refl, suc,
}
use qwertycoin_ts.Common.Result.{Result, ok, err}
use qwertycoin_ts.TaskLooper.{TaskLooper, LooperError, loop_head, run_loop, start, stop}
use qwertycoin_ts.Daemon.Polling.{
  Listener, Daemon, DaemonPoller, is_nonempty, with_looper, set_is_polling, with_new_poller,
  refresh_poller, refresh_listening, add_listener, has_listener, remove_listener, called, visit,
  announce_from, announce_block_header,
}

abbrev IsUp : Result LooperError TaskLooper → Type 0
IsUp (err e) = ⊥
IsUp (ok l) = l.is_started ≡ true

start-IsUp :
    (l : TaskLooper) (period : ℕ) (target : Bool) → 0 < period → IsUp (start l period target)
unfolding start run_loop loop_head
start-IsUp l period target positive =
    let none_period : leb period 0 ≡ false = ground arith in
    rw none_period (elim (Bool-cases l.is_started) [
      | inl up ↦ rw up refl
      | inr down ↦ rw (down, ==_refl (suc l.loop_id)) refl
    ])

-- Polled while there are listeners.
abbrev pub IsPolled : Bool → Option DaemonPoller → Type 0
IsPolled listening none = listening ≡ false
IsPolled listening (some p) = (p.is_polling ≡ some listening) × (p.looper.is_started ≡ listening)

abbrev pub IsListening : Daemon → Type 0
IsListening d = IsPolled (is_nonempty d.listeners) d.poll_listener

-- What the users and the polls of a daemon may do.
pub data ListenStep (d : Daemon) : Daemon → Type 0 where
  adds : (l : Listener) → ListenStep d (add_listener l d).0
  removes : (id : ℕ) → ListenStep d (remove_listener id d).0
  announces : ListenStep d (announce_block_header d).0

pub data ListenReach (d : Daemon) : Daemon → Type 0 where
  begins : ListenReach d d
  follows : {e f : Daemon} → ListenReach d e → ListenStep e f → ListenReach d f

with_looper-IsPolled :
    (p : DaemonPoller) (r : Result LooperError TaskLooper)
    → p.is_polling ≡ some true
    → IsUp r
    → IsPolled true (some (with_looper p r).0)
with_looper-IsPolled p (err e) h up = absurd up
with_looper-IsPolled p (ok l) h up = (h, up)

set_is_polling-IsPolled :
    (p : DaemonPoller) (interval : ℕ) (listening : Bool)
    → 0 < interval
    → IsPolled listening (some (set_is_polling p interval listening).0)
unfolding set_is_polling stop
set_is_polling-IsPolled p interval true positive =
    with_looper-IsPolled (record p { is_polling = some true }) (start p.looper interval false) refl
      (start-IsUp p.looper interval false positive)
set_is_polling-IsPolled p interval false positive = (refl, refl)

with_new_poller-none : (o : Option DaemonPoller) (b : Bool) → with_new_poller o b ≡ none → b ≡ false
with_new_poller-none none true e = absurd (cc)
with_new_poller-none none false e = refl
with_new_poller-none (some p) b e = absurd (cc)

-- The interval, and that polling goes with the listeners.
IsKept : ℕ → Daemon → Type 0
IsKept interval d = (d.poll_interval ≡ interval) × IsListening d

refresh_poller-IsKept :
    (interval : ℕ) (d : Daemon) (o : Option DaemonPoller)
    → d.poll_interval ≡ interval
    → 0 < interval
    → (o ≡ none → is_nonempty d.listeners ≡ false)
    → IsKept interval (refresh_poller d o).0
unfolding refresh_poller IsKept
refresh_poller-IsKept interval d none same positive h = (same, h refl)
refresh_poller-IsKept interval d (some p) same positive h = (
  same,
  set_is_polling-IsPolled p d.poll_interval (is_nonempty d.listeners)
      (subst (λ n. 0 < n) (sym same) positive),
)

module _ (interval : ℕ) (positive : 0 < interval) where
  refresh_listening-IsKept :
      (d : Daemon) → d.poll_interval ≡ interval → IsKept interval (refresh_listening d).0
  unfolding refresh_listening
  refresh_listening-IsKept d same =
      refresh_poller-IsKept interval d (with_new_poller d.poll_listener (is_nonempty d.listeners))
        same positive (with_new_poller-none d.poll_listener (is_nonempty d.listeners))

  remove_listener-IsKept :
      (id : ℕ) (d : Daemon) → IsKept interval d → IsKept interval (remove_listener id d).0
  unfolding remove_listener IsKept
  remove_listener-IsKept id d h = elim (Bool-cases (has_listener d.listeners id)) [
    | inl found ↦ simp found (refresh_listening-IsKept _ h.0)
    | inr missing ↦ simp missing h
  ]

  called-IsKept : (l : Listener) (d : Daemon) → IsKept interval d → IsKept interval (called l d)
  called-IsKept l d h = elim (Bool-cases l.once) [
    | inl once ↦ simp once (remove_listener-IsKept l.id d h)
    | inr stays ↦ simp stays h
  ]

  visit-IsKept :
      (next : Daemon → Daemon × List ℕ) (d : Daemon) (o : Option Listener)
      → ((e : Daemon) → IsKept interval e → IsKept interval (next e).0)
      → IsKept interval d
      → IsKept interval (visit next d o).0
  unfolding visit
  visit-IsKept next d none k h = h
  visit-IsKept next d (some l) k h = k (called l d) (called-IsKept l d h)

  announce_from-IsKept :
      (fuel i : ℕ) (d : Daemon) → IsKept interval d → IsKept interval (announce_from fuel i d).0
  unfolding announce_from
  announce_from-IsKept zero i d h = h
  announce_from-IsKept (suc fuel) i d h =
      visit-IsKept (announce_from fuel (suc i)) d (get_elem? d.listeners i)
        (λ e k. announce_from-IsKept fuel (suc i) e k) h

  ListenStep-IsKept : {d e : Daemon} → ListenStep d e → IsKept interval d → IsKept interval e
  unfolding add_listener announce_block_header IsKept
  ListenStep-IsKept {d} (adds l) h = refresh_listening-IsKept _ h.0
  ListenStep-IsKept {d} (removes id) h = remove_listener-IsKept id d h
  ListenStep-IsKept {d} announces h = announce_from-IsKept (length d.listeners) 0 d h

-- Whatever listeners are added or removed, by users or by themselves when a header is announced: if
-- the poll interval is positive, and polling goes with the listeners at first, then the looper is
-- started exactly while there is a listener, and the poller's flag says so.
pub ListenReach-IsListening :
    {d e : Daemon} → ListenReach d e → 0 < d.poll_interval → IsListening d → IsListening e
unfolding IsKept
ListenReach-IsListening {d} reach positive h = (kept reach).1
  where
    kept : {e : Daemon} → ListenReach d e → IsKept d.poll_interval e
    kept begins = (refl, h)
    kept (follows r step) = ListenStep-IsKept d.poll_interval positive step (kept r)
