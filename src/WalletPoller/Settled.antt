-- ===== src/WalletPoller/Settled.antt =====
-- A poll of MoneroWalletRpc.ts whose poller has announced all that the wallet answers.
use mathlib.Core.List.{append-nil}
use qwertycoin_ts.Common.{
  ℕ, ◌-◌, ◌≡◌, refl, ap, ◌∙◌, Bool, true, false, List, [], ◌∷◌, Option, none, some, arith, includes,
  All,
}
use qwertycoin_ts.Daemon.Blocks.{heights_from}
use qwertycoin_ts.WalletPoller.{
  Poller, Replies, WalletTx, notify_unless, announce_in, announce_locked, announce_all_locked,
  announce_unlocked, announce_all_unlocked, same_balances, check_for_changed_balances,
  announce_blocks, compare_txs, compare_to_previous, poll, fetch_unlocked,
}
use qwertycoin_ts.WalletPoller.Quiet.{
  Knows, has_tx-All, no_longer_locked-All, announce_all_locked-known,
}

-- What a poller compares to, next to the announced hashes.
abbrev pub frame : Poller → ℕ × List WalletTx × Option (ℕ × ℕ)
frame p = (p.prev_height, p.prev_locked_txs, p.prev_balances)

notify_unless-frame :
    (b : Bool) (p : Poller) (tx : WalletTx) → frame (notify_unless b p tx) ≡ frame p
notify_unless-frame true p tx = refl
notify_unless-frame false p tx = refl

announce_in-frame : (b : Bool) (p : Poller) (tx : WalletTx) → frame (announce_in b p tx) ≡ frame p
unfolding announce_in
announce_in-frame true p tx = notify_unless-frame (includes p.prev_confirmed tx.hash) _ tx
announce_in-frame false p tx = notify_unless-frame (includes p.prev_unconfirmed tx.hash) _ tx

pub announce_all_locked-frame :
    (p : Poller) (txs : List WalletTx) → frame (announce_all_locked p txs) ≡ frame p
unfolding announce_all_locked announce_locked
announce_all_locked-frame p [] = refl
announce_all_locked-frame p (tx ∷ txs) =
    announce_all_locked-frame (announce_locked p tx) txs ∙ announce_in-frame tx.is_confirmed p tx

pub announce_all_unlocked-frame :
    (p : Poller) (txs : List WalletTx) → frame (announce_all_unlocked p txs) ≡ frame p
unfolding announce_all_unlocked announce_unlocked
announce_all_unlocked-frame p [] = refl
announce_all_unlocked-frame p (tx ∷ txs) =
    announce_all_unlocked-frame (announce_unlocked p tx) txs ∙ notify_unless-frame _ _ _

-- The poller has announced what the wallet answers.
pub record IsSettled (p : Poller) (r : Replies) : Type 0 where
  pub open_wallet : r.is_closed ≡ false
  pub height : r.height ≡ some p.prev_height
  pub locked : r.locked_txs ≡ some p.prev_locked_txs
  pub knows : All (Knows p) p.prev_locked_txs
  pub prev : ℕ × ℕ
  pub has_prev : p.prev_balances ≡ some prev
  pub now : ℕ × ℕ
  pub has_now : r.balances ≡ some now
  pub same : same_balances now prev ≡ true

no_heights : (n : ℕ) → heights_from (n - n) n ≡ []
unfolding heights_from
no_heights n = let none_left : n - n ≡ 0 = omega arith in rw none_left refl

announce_blocks-again : (p : Poller) → announce_blocks p p.prev_height ≡ p
unfolding announce_blocks
announce_blocks-again p =
    ap (λ l. record p { log = l }) (rw (no_heights p.prev_height) (append-nil p.log))

same_balances-quiet :
    (p : Poller) (prev now : ℕ × ℕ)
    → same_balances now prev ≡ true
    → check_for_changed_balances p prev (some now) ≡ p
unfolding check_for_changed_balances
same_balances-quiet p prev now e = rw e refl

fetch_none : (r : Replies) (hs : List ℕ) → hs ≡ [] → fetch_unlocked r hs ≡ some []
fetch_none r hs e = rw e refl

compared :
    (p : Poller) (r : Replies) (s : IsSettled p r) (us : Option (List WalletTx))
    → us ≡ some []
    → elim us [
      | none ↦ p
      | some unlocked ↦
          check_for_changed_balances
            (announce_all_unlocked (announce_all_locked p p.prev_locked_txs) unlocked)
            s.prev
            r.balances
    ]
      ≡ p
unfolding announce_all_unlocked
compared p r s none e = ground arith
compared p r s (some []) e =
    ap (λ q. check_for_changed_balances q s.prev r.balances)
      (announce_all_locked-known p p.prev_locked_txs s.knows)
    ∙ ap (check_for_changed_balances p s.prev) s.has_now
    ∙ same_balances-quiet p s.prev s.now s.same
compared p r s (some (u ∷ us)) e = ground arith

compare_txs-quiet :
    (p : Poller) (r : Replies) (s : IsSettled p r) → compare_txs p r s.prev p.prev_locked_txs ≡ p
unfolding compare_txs
compare_txs-quiet p r s = compared p r s _ (
    fetch_none r _
      (no_longer_locked-All p.prev_locked_txs p.prev_locked_txs (has_tx-All p.prev_locked_txs)))

pub compare_to_previous-with :
    (p : Poller) (r : Replies) (prev : ℕ × ℕ) (height : ℕ) (txs : List WalletTx)
    → r.height ≡ some height
    → r.locked_txs ≡ some txs
    → compare_to_previous p r prev ≡ compare_txs (announce_blocks p height) r prev txs
unfolding compare_to_previous
compare_to_previous-with p r prev height txs eh et =
    ap
      (λ o. elim o [
        | none ↦ p
        | some h ↦ elim r.locked_txs [
          | none ↦ announce_blocks p h
          | some ts ↦ compare_txs (announce_blocks p h) r prev ts
        ]
      ])
      eh
    ∙ ap
        (λ o. elim o [
          | none ↦ announce_blocks p height
          | some ts ↦ compare_txs (announce_blocks p height) r prev ts
        ])
        et

pub poll-with :
    (p : Poller) (r : Replies) (prev : ℕ × ℕ)
    → r.is_closed ≡ false
    → p.prev_balances ≡ some prev
    → poll p r ≡ compare_to_previous p r prev
unfolding poll
poll-with p r prev eo eb = simp (eo, eb)

-- A settled poller stays as it is.
pub IsSettled-poll : (p : Poller) (r : Replies) → IsSettled p r → poll p r ≡ p
IsSettled-poll p r s =
    poll-with p r s.prev s.open_wallet s.has_prev
    ∙ compare_to_previous-with p r s.prev p.prev_height p.prev_locked_txs s.height s.locked
    ∙ ap (λ q. compare_txs q r s.prev p.prev_locked_txs) (announce_blocks-again p)
    ∙ compare_txs-quiet p r s
