-- ===== src/Tests/Listeners.antt =====
-- The listeners and the polls of a daemon at concrete inputs (MoneroDaemonRpc.ts).
use qwertycoin_ts.Common.{ℕ, ◌≡◌, refl, true, false, [], ◌∷◌, List, none, some, codes, arith, Text}
use qwertycoin_ts.Common.Result.{ok, err}
use qwertycoin_ts.TaskLooper.{new_looper}
use qwertycoin_ts.Daemon.Polling.{
  Header, DaemonPoller, Daemon, PollReplies, waiting, announce_block_header, add_listener,
}
use qwertycoin_ts.Daemon.Polling.Announced.{
  AreChanges, changes, poll_all, observed, hash_of, latest_of, poll_all-AreChanges,
}
use qwertycoin_ts.Daemon.Polling.Notified.{
  notified_after, kept_after, announce_block_header-notified,
}
use qwertycoin_ts.Daemon.Polling.Listening.{
  IsListening, begins, follows, adds, announces, ListenReach-IsListening,
}

abbrev header_of : ℕ → Header
header_of n = record { hash = some (n ∷ []); height = n }

-- A poll that finds the header of a height, and one that fails.
abbrev polled : ℕ → PollReplies Text
polled n = record { fetched = ok (header_of n); again = ok (header_of n) }

abbrev polls : List (PollReplies Text)
polls =
    polled 7
    ∷ (record { fetched = err (codes "offline"); again = ok (header_of 8) })
    ∷ polled 8
    ∷ polled 8
    ∷ []

abbrev at_seven : DaemonPoller
at_seven = record { looper = new_looper; is_polling = some true; last_header = some (header_of 7) }

poll_all-AreChanges_example :
    ((poll_all polls at_seven).1 ≡ changes (header_of 7) (observed polls))
    × AreChanges (header_of 7) (poll_all polls at_seven).1
    × (hash_of (poll_all polls at_seven).0.last_header
        ≡ (latest_of (header_of 7) (observed polls)).hash)
poll_all-AreChanges_example = poll_all-AreChanges polls at_seven (header_of 7) refl

-- Listener 2 stands behind a waiting one and hears nothing.
abbrev listened : Daemon
listened = record {
  listeners =
      waiting 1 ∷ (record { id = 2; once = false }) ∷ (record { id = 3; once = false }) ∷ [];
  poll_listener = none;
  poll_interval = 20000;
}

announce_block_header-notified_example :
    ((announce_block_header listened).1 ≡ notified_after false listened.listeners)
    × ((announce_block_header listened).0.listeners ≡ kept_after false listened.listeners)
announce_block_header-notified_example =
    announce_block_header-notified listened
      ((ground arith, (ground arith, tt)), ((ground arith, tt), (tt, tt)))

announced_passes_over : (announce_block_header listened).1 ≡ 1 ∷ 3 ∷ []
unfolding announce_block_header
announced_passes_over = refl

abbrev unheard : Daemon
unheard = record { listeners = []; poll_listener = none; poll_interval = 20000 }

ListenReach-IsListening_example :
    IsListening (announce_block_header (add_listener (waiting 1) unheard).0).0
ListenReach-IsListening_example =
    ListenReach-IsListening (follows (follows begins (adds (waiting 1))) announces) (omega arith)
      refl
