-- ===== src/Daemon/Polling.antt =====
-- The class `DaemonPoller` of daemon/MoneroDaemonRpc.ts with the listeners of the daemon
-- (`addListener`, `removeListener`, `refreshListening`, `waitForNextBlockHeader`). A poll is given the
-- replies to its two possible requests. A listener may remove itself when it is called, as that of
-- `waitForNextBlockHeader` does; what a listener throws is only logged.
pub mod Announced
pub mod Notified
pub mod Listening
use qwertycoin_ts.Common.{
  ℕ, zero, suc, ◌+◌, Bool, true, false, not, ◌&&◌, List, [], ◌∷◌, ◌++◌, Option, none, some, length,
  get_elem?, ◌==◌, Text, same_text, if◌then◌else◌,
}
use qwertycoin_ts.Common.Result.{Result, ok, err}
use qwertycoin_ts.TaskLooper.{TaskLooper, LooperError, new_looper, start, stop}

pub record Header : Type 0 where
  pub hash : Option Text
  pub height : ℕ

-- A listener by its identity, and whether it removes itself when it is called.
pub record Listener : Type 0 where
  pub id : ℕ
  pub once : Bool

pub record DaemonPoller : Type 0 where
  pub looper : TaskLooper
  pub is_polling : Option Bool
  pub last_header : Option Header

pub record Daemon : Type 0 where
  pub listeners : List Listener
  pub poll_listener : Option DaemonPoller
  pub poll_interval : ℕ

pub data ListenerError : Type 0 where
  not_registered : ListenerError
  start_failed : LooperError → ListenerError

abbrev pub new_daemon_poller : DaemonPoller
new_daemon_poller = record { looper = new_looper; is_polling = none; last_header = none }

abbrev pub is_nonempty {ℓ} : {A : Type ℓ} → List A → Bool
is_nonempty [] = false
is_nonempty (x ∷ xs) = true

abbrev pub with_looper :
    DaemonPoller → Result LooperError TaskLooper → DaemonPoller × Option ListenerError
with_looper p (ok l) = (record p { looper = l }, none)
with_looper p (err e) = (p, some (start_failed e))

unfoldable pub set_is_polling : DaemonPoller → ℕ → Bool → DaemonPoller × Option ListenerError
set_is_polling p interval true =
    with_looper (record p { is_polling = some true }) (start p.looper interval false)
set_is_polling p interval false =
    (record p { is_polling = some false; looper = stop p.looper }, none)

abbrev pub with_new_poller : Option DaemonPoller → Bool → Option DaemonPoller
with_new_poller none true = some new_daemon_poller
with_new_poller none false = none
with_new_poller (some p) listening = some p

unfoldable pub refresh_poller : Daemon → Option DaemonPoller → Daemon × Option ListenerError
unfolding set_is_polling
refresh_poller d none = (record d { poll_listener = none }, none)
refresh_poller d (some p) =
    let (q, thrown) = set_is_polling p d.poll_interval (is_nonempty d.listeners) in
    (record d { poll_listener = some q }, thrown)

unfoldable pub refresh_listening : Daemon → Daemon × Option ListenerError
unfolding refresh_poller
refresh_listening d = refresh_poller d (with_new_poller d.poll_listener (is_nonempty d.listeners))

unfoldable pub add_listener : Listener → Daemon → Daemon × Option ListenerError
unfolding refresh_listening
add_listener l d = refresh_listening (record d { listeners = d.listeners ++ (l ∷ []) })

abbrev pub has_listener : List Listener → ℕ → Bool
has_listener [] id = false
has_listener (l ∷ ls) id = if l.id == id then true else has_listener ls id

-- `splice(indexOf(listener), 1)`
unfoldable pub without_listener : List Listener → ℕ → List Listener
without_listener [] id = []
without_listener (l ∷ ls) id = if l.id == id then ls else l ∷ without_listener ls id

unfoldable pub remove_listener : ℕ → Daemon → Daemon × Option ListenerError
unfolding refresh_listening without_listener
remove_listener id d =
    if has_listener d.listeners id
    then refresh_listening (record d { listeners = without_listener d.listeners id })
    else (d, some not_registered)

-- The listener of `waitForNextBlockHeader`.
abbrev pub waiting : ℕ → Listener
waiting id = record { id = id; once = true }

unfoldable pub wait_for_next_block_header : ℕ → Daemon → Daemon × Option ListenerError
unfolding add_listener
wait_for_next_block_header id d = add_listener (waiting id) d

-- The replies to the requests for the last header.
pub record PollReplies (E : Type 0) : Type 0 where
  pub fetched : Result E Header
  pub again : Result E Header

unfoldable pub save_first :
    {E : Type 0} → DaemonPoller → Result E Header → DaemonPoller × Option Header
save_first p (err e) = (p, none)
save_first p (ok h) = (record p { last_header = some h }, none)

-- The comparison with the last header.
unfoldable pub compare_header : DaemonPoller → Header → Header → DaemonPoller × Option Header
compare_header p last h =
    if same_text h.hash last.hash then (p, none) else (record p { last_header = some h }, some h)

unfoldable pub poll_header :
    {E : Type 0}
    → DaemonPoller
    → Option Header
    → PollReplies E
    → Header
    → DaemonPoller × Option Header
unfolding save_first compare_header
poll_header p none r h = save_first p r.again
poll_header p (some last) r h = compare_header p last h

unfoldable pub poll_latest :
    {E : Type 0} → Result E Header → DaemonPoller → PollReplies E → DaemonPoller × Option Header
unfolding poll_header
poll_latest (err e) p r = (p, none)
poll_latest (ok h) p r = poll_header p p.last_header r h

-- `poll` up to the call of the listeners: the header to announce, if any.
unfoldable pub poll_last_header :
    {E : Type 0} → PollReplies E → DaemonPoller → DaemonPoller × Option Header
unfolding poll_latest
poll_last_header r p = poll_latest r.fetched p r

-- `announceBlockHeader`: the `for` loop reads the array that the listeners change. It ends when its
-- index passes the end, and the array only shrinks: its length is fuel enough.
abbrev pub called : Listener → Daemon → Daemon
called l d = if l.once then (remove_listener l.id d).0 else d

unfoldable pub visit : (Daemon → Daemon × List ℕ) → Daemon → Option Listener → Daemon × List ℕ
unfolding remove_listener
visit next d none = (d, [])
visit next d (some l) = let (later, notified) = next (called l d) in (later, l.id ∷ notified)

unfoldable pub announce_from : ℕ → ℕ → Daemon → Daemon × List ℕ
unfolding visit
announce_from zero i d = (d, [])
announce_from (suc fuel) i d = visit (announce_from fuel (suc i)) d (get_elem? d.listeners i)

unfoldable pub announce_block_header : Daemon → Daemon × List ℕ
unfolding announce_from
announce_block_header d = announce_from (length d.listeners) 0 d
