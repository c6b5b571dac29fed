-- ===== src/Tests/Polling.antt =====
-- The poller of a wallet at concrete inputs (MoneroWalletRpc.ts).
use qwertycoin_ts.Common.{
  ℕ, ◌-◌, ◌≤◌, ◌≡◌, ◌<◌, refl, true, false, List, [], ◌∷◌, ◌++◌, Option, none, some, arith, All,
  includes, subst, ap,
}
use qwertycoin_ts.Daemon.Blocks.{heights_from}
use qwertycoin_ts.WalletPoller.{Poller, Replies, WalletTx, poll}
use qwertycoin_ts.WalletPoller.Announcements.{blocks}
use qwertycoin_ts.WalletPoller.Blocks.{run, blocks-run}
use qwertycoin_ts.WalletPoller.Repeat.{Succeeds, poll-again}
use qwertycoin_ts.ThreadPool.{submit}
use qwertycoin_ts.WalletPoller.Guard.{
  Polling, new_polling, begin_poll, count_down, Reach, here, next, polls, counts_down, IsGuarded,
  Reach-IsGuarded,
}

-- A transaction that receives one output.
abbrev incoming : WalletTx
incoming = record {
  hash = 5;
  is_confirmed = true;
  is_locked = true;
  fee = 0;
  outgoing_transfer = none;
  incoming_transfers = some (record { account_index = 0; subaddress_index = 1; amount = 70 } ∷ []);
  outputs = [];
}

abbrev spent : WalletTx
spent = record incoming {
  hash = 4;
  outgoing_transfer = some (record { amount = 30; account_index = 0; subaddress_indices = 2 ∷ [] });
  incoming_transfers = none;
}

abbrev poller : Poller
poller = record {
  prev_locked_txs = spent ∷ [];
  prev_unconfirmed = [];
  prev_confirmed = 4 ∷ [];
  prev_height = 100;
  prev_balances = some (50, 20);
  log = [];
}

-- One of the transactions that are asked for is unlocked.
abbrev unlocked_of : List ℕ → List WalletTx
unlocked_of [] = []
unlocked_of (h ∷ hs) = record spent { hash = h; is_locked = false } ∷ []

abbrev answers : ℕ → Replies
answers height = record {
  is_closed = false;
  height = some height;
  locked_txs = some (incoming ∷ []);
  unlocked_txs = λ hs. some (unlocked_of hs);
  balances = some (120, 20);
}

unlocked_of-All : (hs : List ℕ) → All (λ u. includes hs u.hash ≡ true) (unlocked_of hs)
unlocked_of-All [] = tt
unlocked_of-All (h ∷ hs) = (ground arith, tt)

abbrev txs_of : Option (List WalletTx) → List WalletTx
txs_of none = []
txs_of (some txs) = txs

answers-Succeeds : (height : ℕ) → Succeeds (answers height)
answers-Succeeds height = record {
  open_wallet = refl;
  at = height;
  height = refl;
  txs = incoming ∷ [];
  locked = refl;
  unlocked = unlocked_of;
  fetched = λ hs. refl;
  now = (120, 20);
  balances = refl;
  answers =
      λ hs us e. subst (All (λ u. includes hs u.hash ≡ true)) (ap txs_of e) (unlocked_of-All hs);
}

poll-again_example : poll (poll poller (answers 102)) (answers 102) ≡ poll poller (answers 102)
poll-again_example = poll-again poller (answers 102) (50, 20) refl (answers-Succeeds 102)

blocks-run_example :
    (100 ≤ (run poller (answers 102 ∷ answers 105 ∷ [])).prev_height)
    × (blocks (run poller (answers 102 ∷ answers 105 ∷ [])).log
        ≡ [] ++ heights_from ((run poller (answers 102 ∷ answers 105 ∷ [])).prev_height - 100) 100)
blocks-run_example =
    blocks-run poller (answers 102 ∷ answers 105 ∷ []) (λ e. ground arith)
      (omega arith, (omega arith, tt))

abbrev one_polls : Polling
one_polls = (begin_poll new_polling 1).0

abbrev two_poll : Polling
two_poll = (begin_poll one_polls 2).0

two_poll-Reach : Reach two_poll
two_poll-Reach = next _ _ (next _ _ here (polls 1)) (polls 2)

two_poll-runs : (0 < two_poll.pool.num_running) × (two_poll.counted_down ≡ false)
unfolding begin_poll submit
two_poll-runs = (omega arith, refl)

-- The first poll has counted itself down, and a third one begins before its task ends.
Reach-IsGuarded_example : IsGuarded (begin_poll (count_down two_poll) 3).0
Reach-IsGuarded_example =
    Reach-IsGuarded (begin_poll (count_down two_poll) 3).0
      (next _ _ (next _ _ two_poll-Reach (counts_down two_poll-runs.0 two_poll-runs.1)) (polls 3))

third_waits :
    ((begin_poll (count_down two_poll) 3).0.num_polling ≡ 2)
    × ((begin_poll (count_down two_poll) 3).0.pool.queue ≡ 2 ∷ 3 ∷ [])
unfolding begin_poll count_down submit
third_waits = (refl, refl)
