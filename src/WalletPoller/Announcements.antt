-- ===== src/WalletPoller/Announcements.antt =====
-- What the steps of the poller of MoneroWalletRpc.ts announce and keep.
use mathlib.Core.List.{append-nil}
use qwertycoin_ts.Common.{
  ℕ, ◌≡◌, refl, ap, ◌∙◌, Bool, true, false, List, [], ◌∷◌, ◌++◌, map, Option, none, some, includes,
  if◌then◌else◌,
}
use qwertycoin_ts.WalletPoller.{
  Poller, Replies, WalletTx, WalletOutput, IncomingTransfer, OutgoingTransfer, Announcement,
  new_block, output_spent, output_received, balances_changed, notify_spent, notify_received,
  notify_outputs, notify_unless, announce, announce_in, announce_locked, announce_all_locked,
  announce_unlocked, announce_all_unlocked, same_balances, check_for_changed_balances, compare_txs,
  fetch_unlocked, no_longer_locked, of_transfer, add, delete,
}

-- The blocks in a log.
abbrev pub blocks : List Announcement → List ℕ
blocks [] = []
blocks (new_block h ∷ as') = h ∷ blocks as'
blocks (output_spent tx o ∷ as') = blocks as'
blocks (output_received tx o ∷ as') = blocks as'
blocks (balances_changed b u ∷ as') = blocks as'

pub blocks-append : (as' bs : List Announcement) → blocks (as' ++ bs) ≡ blocks as' ++ blocks bs
blocks-append [] bs = refl
blocks-append (new_block h ∷ as') bs = ap (◌∷◌ h) (blocks-append as' bs)
blocks-append (output_spent tx o ∷ as') bs = blocks-append as' bs
blocks-append (output_received tx o ∷ as') bs = blocks-append as' bs
blocks-append (balances_changed b u ∷ as') bs = blocks-append as' bs

pub blocks-map_new_block : (hs : List ℕ) → blocks (map new_block hs) ≡ hs
blocks-map_new_block [] = refl
blocks-map_new_block (h ∷ hs) = ap (◌∷◌ h) (blocks-map_new_block hs)

blocks-received :
    (tx : WalletTx) (os : List WalletOutput) → blocks (map (output_received tx) os) ≡ []
blocks-received tx [] = refl
blocks-received tx (o ∷ os) = blocks-received tx os

blocks-transfers :
    (tx : WalletTx) (ts : List IncomingTransfer)
    → blocks (map (λ t. output_received tx (of_transfer t)) ts) ≡ []
blocks-transfers tx [] = refl
blocks-transfers tx (t ∷ ts) = blocks-transfers tx ts

blocks-notify_received :
    (tx : WalletTx) (ts : Option (List IncomingTransfer)) (os : List WalletOutput)
    → blocks (notify_received tx ts os) ≡ []
unfolding notify_received
blocks-notify_received tx none os = refl
blocks-notify_received tx (some ts) [] = blocks-transfers tx ts
blocks-notify_received tx (some ts) (o ∷ os) = blocks-received tx os

blocks-notify_spent :
    (tx : WalletTx) (t : Option OutgoingTransfer) → blocks (notify_spent tx t) ≡ []
unfolding notify_spent
blocks-notify_spent tx none = refl
blocks-notify_spent tx (some t) = refl

blocks-notify_outputs : (tx : WalletTx) → blocks (notify_outputs tx) ≡ []
unfolding notify_outputs
blocks-notify_outputs tx =
    blocks-append (notify_spent tx tx.outgoing_transfer) _
    ∙ rw (blocks-notify_spent tx tx.outgoing_transfer)
        (blocks-notify_received tx tx.incoming_transfers tx.outputs)

-- A step that announces no block and keeps the height and the snapshot.
pub record Keeps (p q : Poller) : Type 0 where
  pub height : q.prev_height ≡ p.prev_height
  pub announced : blocks q.log ≡ blocks p.log
  pub snapshot : (q.prev_balances ≡ none) → p.prev_balances ≡ none

pub Keeps-trans : (p q r : Poller) → Keeps p q → Keeps q r → Keeps p r
Keeps-trans p q r k l = record {
  height = l.height ∙ k.height;
  announced = l.announced ∙ k.announced;
  snapshot = λ e. k.snapshot (l.snapshot e);
}

announce-Keeps : (p : Poller) (as' : List Announcement) → blocks as' ≡ [] → Keeps p (announce p as')
announce-Keeps p as' e = record {
  height = refl;
  announced = blocks-append p.log as' ∙ rw e (append-nil (blocks p.log));
  snapshot = λ h. h;
}

notify_unless-Keeps :
    (b : Bool) (p q : Poller) (tx : WalletTx) → Keeps p q → Keeps p (notify_unless b q tx)
notify_unless-Keeps true p q tx k = k
notify_unless-Keeps false p q tx k =
    Keeps-trans p q (announce q (notify_outputs tx)) k
      (announce-Keeps q (notify_outputs tx) (blocks-notify_outputs tx))

announce_in-Keeps : (b : Bool) (p : Poller) (tx : WalletTx) → Keeps p (announce_in b p tx)
unfolding announce_in
announce_in-Keeps true p tx =
    notify_unless-Keeps (includes p.prev_confirmed tx.hash) p
      (record p { prev_confirmed = add tx.hash p.prev_confirmed }) tx
      (record { height = refl; announced = refl; snapshot = λ h. h })
announce_in-Keeps false p tx =
    notify_unless-Keeps (includes p.prev_unconfirmed tx.hash) p
      (record p { prev_unconfirmed = add tx.hash p.prev_unconfirmed }) tx
      (record { height = refl; announced = refl; snapshot = λ h. h })

announce_locked-Keeps : (p : Poller) (tx : WalletTx) → Keeps p (announce_locked p tx)
unfolding announce_locked
announce_locked-Keeps p tx = announce_in-Keeps tx.is_confirmed p tx

announce_all_locked-Keeps : (p : Poller) (txs : List WalletTx) → Keeps p (announce_all_locked p txs)
unfolding announce_all_locked
announce_all_locked-Keeps p [] = record { height = refl; announced = refl; snapshot = λ h. h }
announce_all_locked-Keeps p (tx ∷ txs) =
    Keeps-trans p (announce_locked p tx) _ (announce_locked-Keeps p tx)
      (announce_all_locked-Keeps (announce_locked p tx) txs)

announce_unlocked-Keeps : (p : Poller) (tx : WalletTx) → Keeps p (announce_unlocked p tx)
unfolding announce_unlocked
announce_unlocked-Keeps p tx =
    let q = record p {
      prev_unconfirmed = delete tx.hash p.prev_unconfirmed;
      prev_confirmed = delete tx.hash p.prev_confirmed;
    } in
    Keeps-trans p _ _
      (notify_unless-Keeps _ p q (record tx { is_locked = true })
        (record { height = refl; announced = refl; snapshot = λ h. h }))
      (announce-Keeps _ (notify_outputs tx) (blocks-notify_outputs tx))

announce_all_unlocked-Keeps :
    (p : Poller) (txs : List WalletTx) → Keeps p (announce_all_unlocked p txs)
unfolding announce_all_unlocked
announce_all_unlocked-Keeps p [] = record { height = refl; announced = refl; snapshot = λ h. h }
announce_all_unlocked-Keeps p (tx ∷ txs) =
    Keeps-trans p (announce_unlocked p tx) _ (announce_unlocked-Keeps p tx)
      (announce_all_unlocked-Keeps (announce_unlocked p tx) txs)

if-Keeps : (b : Bool) (p q r : Poller) → Keeps p q → Keeps p r → Keeps p (if b then q else r)
if-Keeps true p q r k l = k
if-Keeps false p q r k l = l

pub unchanged : (p : Poller) → Keeps p p
unchanged p = record { height = refl; announced = refl; snapshot = λ h. h }

check_for_changed_balances-Keeps :
    (p : Poller) (prev : ℕ × ℕ) (b : Option (ℕ × ℕ)) → Keeps p (check_for_changed_balances p prev b)
unfolding check_for_changed_balances
check_for_changed_balances-Keeps p prev none = unchanged p
check_for_changed_balances-Keeps p prev (some b) =
    if-Keeps (same_balances b prev) p p _ (unchanged p) (record {
      height = refl;
      announced = blocks-append p.log _ ∙ append-nil (blocks p.log);
      snapshot = λ e. cc;
    })

pub compare_txs-Keeps :
    (p : Poller) (r : Replies) (prev : ℕ × ℕ) (txs : List WalletTx)
    → Keeps p (compare_txs p r prev txs)
unfolding compare_txs
compare_txs-Keeps p r prev txs =
    compared (fetch_unlocked r (no_longer_locked p.prev_locked_txs txs))
  where
    q : Poller
    q = record p { prev_locked_txs = txs }

    saved : Keeps p q
    saved = record { height = refl; announced = refl; snapshot = λ h. h }

    compared :
        (unlocked : Option (List WalletTx))
        → Keeps p (elim unlocked [
          | none ↦ q
          | some us ↦
              check_for_changed_balances
                (announce_all_unlocked (announce_all_locked q txs) us)
                prev
                r.balances
        ])
    compared none = saved
    compared (some us) = Keeps-trans p q _ saved (
        Keeps-trans q _ _ (announce_all_locked-Keeps q txs) (
          Keeps-trans _ _ _ (announce_all_unlocked-Keeps _ us)
            (check_for_changed_balances-Keeps _ prev r.balances)))
