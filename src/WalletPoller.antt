-- ===== src/WalletPoller.antt =====
-- `WalletPoller` of wallet/MoneroWalletRpc.ts. What the wallet answers in a poll is an argument, where
-- `none` is a call that throws; what the poller announces is appended to a log. A hash is known by a
-- number. A transaction of the wallet server has no inputs, as the source asserts.
pub mod Announcements
pub mod Blocks
pub mod Quiet
pub mod Settled
pub mod Repeat
pub mod Guard
use qwertycoin_ts.Common.{
  ℕ, zero, suc, ◌+◌, ◌-◌, ◌≡◌, Bool, true, false, not, ◌&&◌, ◌||◌, List, [], ◌∷◌, ◌++◌, map, Option,
  none, some, ◌==◌, if◌then◌else◌, includes,
}
use qwertycoin_ts.Daemon.Blocks.{heights_from}

pub record OutgoingTransfer : Type 0 where
  pub amount : ℕ
  pub account_index : ℕ
  pub subaddress_indices : List ℕ

pub record IncomingTransfer : Type 0 where
  pub account_index : ℕ
  pub subaddress_index : ℕ
  pub amount : ℕ

-- What the poller reads of an output of the wallet.
pub record WalletOutput : Type 0 where
  pub account_index : ℕ
  pub subaddress_index : Option ℕ
  pub amount : ℕ

pub record WalletTx : Type 0 where
  pub hash : ℕ
  pub is_confirmed : Bool
  pub is_locked : Bool
  pub fee : ℕ
  pub outgoing_transfer : Option OutgoingTransfer
  pub incoming_transfers : Option (List IncomingTransfer)
  pub outputs : List WalletOutput

-- An output is announced with the state of its transaction.
pub data Announcement : Type 0 where
  new_block : (height : ℕ) → Announcement
  output_spent : (tx : WalletTx) → WalletOutput → Announcement
  output_received : (tx : WalletTx) → WalletOutput → Announcement
  balances_changed : (balance : ℕ) → (unlocked : ℕ) → Announcement

pub record Poller : Type 0 where
  pub prev_locked_txs : List WalletTx
  pub prev_unconfirmed : List ℕ
  pub prev_confirmed : List ℕ
  pub prev_height : ℕ
  pub prev_balances : Option (ℕ × ℕ)
  pub log : List Announcement

-- The answers of the wallet in one poll.
pub record Replies : Type 0 where
  pub is_closed : Bool
  pub height : Option ℕ
  pub locked_txs : Option (List WalletTx)
  pub unlocked_txs : List ℕ → Option (List WalletTx)
  pub balances : Option (ℕ × ℕ)

unfoldable pub new_poller : Poller
new_poller = record {
  prev_locked_txs = [];
  prev_unconfirmed = [];
  prev_confirmed = [];
  prev_height = 0;
  prev_balances = none;
  log = [];
}

abbrev pub announce : Poller → List Announcement → Poller
announce p as' = record p { log = p.log ++ as' }

-- The subaddress is known if the transfer has one source.
abbrev pub single : List ℕ → Option ℕ
single (i ∷ []) = some i
single _ = none

unfoldable pub notify_spent : WalletTx → Option OutgoingTransfer → List Announcement
notify_spent tx none = []
notify_spent tx (some t) =
    output_spent tx (record {
      account_index = t.account_index;
      subaddress_index = single t.subaddress_indices;
      amount = t.amount + tx.fee;
    })
    ∷ []

abbrev pub of_transfer : IncomingTransfer → WalletOutput
of_transfer t = record {
  account_index = t.account_index;
  subaddress_index = some t.subaddress_index;
  amount = t.amount;
}

-- Without outputs, those of the incoming transfers stand in.
unfoldable pub notify_received :
    WalletTx → Option (List IncomingTransfer) → List WalletOutput → List Announcement
notify_received tx none outputs = []
notify_received tx (some ts) [] = map (λ t. output_received tx (of_transfer t)) ts
notify_received tx (some ts) (o ∷ os) = map (output_received tx) (o ∷ os)

unfoldable pub notify_outputs : WalletTx → List Announcement
unfolding notify_spent notify_received
notify_outputs tx =
    notify_spent tx tx.outgoing_transfer ++ notify_received tx tx.incoming_transfers tx.outputs

-- `getTx`
unfoldable pub has_tx : List WalletTx → ℕ → Bool
has_tx [] hash = false
has_tx (tx ∷ txs) hash = (hash == tx.hash) || has_tx txs hash

unfoldable pub no_longer_locked : List WalletTx → List WalletTx → List ℕ
unfolding has_tx
no_longer_locked [] locked = []
no_longer_locked (tx ∷ txs) locked =
    let rest = no_longer_locked txs locked in if has_tx locked tx.hash then rest else tx.hash ∷ rest

-- `Set.delete`
abbrev pub delete : ℕ → List ℕ → List ℕ
delete hash [] = []
delete hash (h ∷ hs) = let rest = delete hash hs in if h == hash then rest else h ∷ rest

-- `Set.add`
abbrev pub add : ℕ → List ℕ → List ℕ
add hash hs = if includes hs hash then hs else hash ∷ hs

abbrev pub notify_unless : Bool → Poller → WalletTx → Poller
notify_unless announced p tx = if announced then p else announce p (notify_outputs tx)

-- The set of announced hashes is that of the confirmed or that of the unconfirmed transactions.
unfoldable pub announce_in : Bool → Poller → WalletTx → Poller
announce_in true p tx =
    notify_unless (includes p.prev_confirmed tx.hash)
      (record p { prev_confirmed = add tx.hash p.prev_confirmed }) tx
announce_in false p tx =
    notify_unless (includes p.prev_unconfirmed tx.hash)
      (record p { prev_unconfirmed = add tx.hash p.prev_unconfirmed }) tx

-- The body of the loop over the locked transactions.
unfoldable pub announce_locked : Poller → WalletTx → Poller
unfolding announce_in
announce_locked p tx = announce_in tx.is_confirmed p tx

unfoldable pub announce_all_locked : Poller → List WalletTx → Poller
unfolding announce_locked
announce_all_locked p [] = p
announce_all_locked p (tx ∷ txs) = announce_all_locked (announce_locked p tx) txs

-- The body of the loop over the unlocked transactions. A confirmation that was missed is announced
-- first, of a locked copy.
unfoldable pub announce_unlocked : Poller → WalletTx → Poller
announce_unlocked p tx =
    let missed = tx.is_confirmed && not (includes p.prev_confirmed tx.hash) in
    let p' = record p {
      prev_unconfirmed = delete tx.hash p.prev_unconfirmed;
      prev_confirmed = delete tx.hash p.prev_confirmed;
    } in
    announce (notify_unless (not missed) p' (record tx { is_locked = true })) (notify_outputs tx)

unfoldable pub announce_all_unlocked : Poller → List WalletTx → Poller
unfolding announce_unlocked
announce_all_unlocked p [] = p
announce_all_unlocked p (tx ∷ txs) = announce_all_unlocked (announce_unlocked p tx) txs

abbrev pub same_balances : ℕ × ℕ → ℕ × ℕ → Bool
same_balances a b = (a.0 == b.0) && (a.1 == b.1)

-- `checkForChangedBalances`
unfoldable pub check_for_changed_balances : Poller → ℕ × ℕ → Option (ℕ × ℕ) → Poller
check_for_changed_balances p prev none = p
check_for_changed_balances p prev (some b) =
    if same_balances b prev
    then p
    else announce (record p { prev_balances = some b }) (balances_changed b.0 b.1 ∷ [])

-- The new blocks are announced unless the height is lower.
unfoldable pub announce_blocks : Poller → ℕ → Poller
unfolding heights_from
announce_blocks p height =
    announce (record p { prev_height = height })
      (map new_block (heights_from (height - p.prev_height) p.prev_height))

-- The first poll takes a snapshot.
unfoldable pub take_snapshot : Poller → Replies → Poller
take_snapshot p r = elim r.height [
  | none ↦ p
  | some height ↦ elim r.locked_txs [
    | none ↦ record p { prev_height = height }
    | some txs ↦ record p {
      prev_height = height;
      prev_locked_txs = txs;
      prev_balances = r.balances;
    }
  ]
]

abbrev pub fetch_unlocked : Replies → List ℕ → Option (List WalletTx)
fetch_unlocked r [] = some []
fetch_unlocked r (h ∷ hs) = r.unlocked_txs (h ∷ hs)

-- From the comparison of the locked transactions on.
unfoldable pub compare_txs : Poller → Replies → ℕ × ℕ → List WalletTx → Poller
unfolding no_longer_locked announce_all_locked announce_all_unlocked check_for_changed_balances
compare_txs p r prev txs =
    let p' = record p { prev_locked_txs = txs } in
    elim (fetch_unlocked r (no_longer_locked p.prev_locked_txs txs)) [
      | none ↦ p'
      | some unlocked ↦
          check_for_changed_balances (announce_all_unlocked (announce_all_locked p' txs) unlocked)
            prev r.balances
    ]

unfoldable pub compare_to_previous : Poller → Replies → ℕ × ℕ → Poller
unfolding announce_blocks compare_txs
compare_to_previous p r prev = elim r.height [
  | none ↦ p
  | some height ↦ elim r.locked_txs [
    | none ↦ announce_blocks p height
    | some txs ↦ compare_txs (announce_blocks p height) r prev txs
  ]
]

-- The task of a poll.
unfoldable pub poll : Poller → Replies → Poller
unfolding take_snapshot compare_to_previous
poll p r = if r.is_closed then p else elim p.prev_balances [
  | none ↦ take_snapshot p r
  | some prev ↦ compare_to_previous p r prev
]
