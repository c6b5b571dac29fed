-- ===== src/WalletPoller/Repeat.antt =====
-- A poll of MoneroWalletRpc.ts that gets the answers of the poll before it.
use qwertycoin_ts.Common.{
  ℕ, ◌≡◌, ◌≢◌, refl, sym, ap, ◌∙◌, subst, Bool, true, false, List, [], ◌∷◌, Option, none, some,
  arith, includes, if◌then◌else◌, All,
}
use qwertycoin_ts.WalletPoller.{
  Poller, Replies, WalletTx, Announcement, announce, announce_all_locked, announce_all_unlocked,
  same_balances, check_for_changed_balances, balances_changed, announce_blocks, compare_txs, poll,
  fetch_unlocked, no_longer_locked, has_tx,
}
use qwertycoin_ts.WalletPoller.Quiet.{
  known_in, Knows, announce_all_unlocked-keeps, announce_all_locked-Knows, has_tx-All,
  no_longer_locked-has_tx,
}
use qwertycoin_ts.WalletPoller.Settled.{
  frame, IsSettled, IsSettled-poll, announce_all_locked-frame, announce_all_unlocked-frame,
  compare_to_previous-with, poll-with,
}

-- The answers to a request for hashes are transactions with these hashes.
abbrev pub AnswersHashes : Replies → Type 0
AnswersHashes r =
    (hs : List ℕ) (us : List WalletTx)
    → r.unlocked_txs hs ≡ some us
    → All (λ u. includes hs u.hash ≡ true) us

-- Every call of the wallet succeeds, and returns only the transactions that were asked for.
pub record Succeeds (r : Replies) : Type 0 where
  pub open_wallet : r.is_closed ≡ false
  pub at : ℕ
  pub height : r.height ≡ some at
  pub txs : List WalletTx
  pub locked : r.locked_txs ≡ some txs
  pub unlocked : List ℕ → List WalletTx
  pub fetched : (hs : List ℕ) → r.unlocked_txs hs ≡ some (unlocked hs)
  pub now : ℕ × ℕ
  pub balances : r.balances ≡ some now
  pub answers : AnswersHashes r

fetched_all : (r : Replies) → Succeeds r → List ℕ → List WalletTx
fetched_all r s [] = []
fetched_all r s (h ∷ hs) = s.unlocked (h ∷ hs)

fetch_unlocked-fetched :
    (r : Replies) (s : Succeeds r) (hs : List ℕ) → fetch_unlocked r hs ≡ some (fetched_all r s hs)
unfolding fetched_all
fetch_unlocked-fetched r s [] = refl
fetch_unlocked-fetched r s (h ∷ hs) = s.fetched (h ∷ hs)

fetched_all-answers :
    (r : Replies) (s : Succeeds r) (hs : List ℕ)
    → All (λ u. includes hs u.hash ≡ true) (fetched_all r s hs)
unfolding fetched_all
fetched_all-answers r s [] = tt
fetched_all-answers r s (h ∷ hs) = s.answers (h ∷ hs) _ (s.fetched (h ∷ hs))

apart_from_All :
    (old locked : List WalletTx) (tx : WalletTx) (us : List WalletTx)
    → has_tx locked tx.hash ≡ true
    → All (λ u. includes (no_longer_locked old locked) u.hash ≡ true) us
    → All (λ u. tx.hash ≢ u.hash) us
apart_from_All old locked tx [] e a = tt
apart_from_All old locked tx (u ∷ us) e a = (
  λ same. ground (arith, no_longer_locked-has_tx old locked u.hash a.0),
  apart_from_All old locked tx us e a.1,
)

unlocked_keeps_All :
    (p : Poller) (old locked us txs : List WalletTx)
    → All (λ u. includes (no_longer_locked old locked) u.hash ≡ true) us
    → All (λ x. has_tx locked x.hash ≡ true) txs
    → All (Knows p) txs
    → All (Knows (announce_all_unlocked p us)) txs
unlocked_keeps_All p old locked us [] a h k = tt
unlocked_keeps_All p old locked us (tx ∷ txs) a h k = (
  announce_all_unlocked-keeps p us tx (apart_from_All old locked tx us h.0 a) k.0,
  unlocked_keeps_All p old locked us txs a h.1 k.1,
)

same_balances_self : (b : ℕ × ℕ) → same_balances b b ≡ true
same_balances_self b = ground arith

known_in-balances :
    (b : Bool) (p : Poller) (o : Option (ℕ × ℕ)) (as' : List Announcement) (h : ℕ)
    → known_in b p h ≡ true
    → known_in b (announce (record p { prev_balances = o }) as') h ≡ true
known_in-balances true p o as' h e = e
known_in-balances false p o as' h e = e

Knows-balances :
    (p : Poller) (o : Option (ℕ × ℕ)) (as' : List Announcement) (txs : List WalletTx)
    → All (Knows p) txs
    → All (Knows (announce (record p { prev_balances = o }) as')) txs
Knows-balances p o as' [] k = tt
Knows-balances p o as' (tx ∷ txs) k =
    (known_in-balances tx.is_confirmed p o as' tx.hash k.0, Knows-balances p o as' txs k.1)

settle_if :
    (b : Bool) (r : Replies) (s : Succeeds r) (prev : ℕ × ℕ) (q : Poller)
    → same_balances s.now prev ≡ b
    → frame q ≡ (s.at, s.txs, some prev)
    → All (Knows q) s.txs
    → IsSettled
        (if b
          then q
          else announce
              (record q { prev_balances = some s.now })
              (balances_changed s.now.0 s.now.1 ∷ []))
        r
settle_if true r s prev q e f k = record {
  open_wallet = s.open_wallet;
  height = s.height ∙ ap some (sym (ap (λ x. x.0) f));
  locked = s.locked ∙ ap some (sym (ap (λ x. x.1) f));
  knows = subst (All (Knows q)) (sym (ap (λ x. x.1) f)) k;
  prev = prev;
  has_prev = ap (λ x. x.2) f;
  now = s.now;
  has_now = s.balances;
  same = e;
}
settle_if false r s prev q e f k = record {
  open_wallet = s.open_wallet;
  height = s.height ∙ ap some (sym (ap (λ x. x.0) f));
  locked = s.locked ∙ ap some (sym (ap (λ x. x.1) f));
  knows =
      Knows-balances q (some s.now) _ q.prev_locked_txs
        (subst (All (Knows q)) (sym (ap (λ x. x.1) f)) k);
  prev = s.now;
  has_prev = refl;
  now = s.now;
  has_now = s.balances;
  same = same_balances_self s.now;
}

check_for_changed_balances-IsSettled :
    (r : Replies) (s : Succeeds r) (prev : ℕ × ℕ) (q : Poller)
    → frame q ≡ (s.at, s.txs, some prev)
    → All (Knows q) s.txs
    → IsSettled (check_for_changed_balances q prev r.balances) r
unfolding check_for_changed_balances
check_for_changed_balances-IsSettled r s prev q f k =
    subst (λ o. IsSettled (check_for_changed_balances q prev o) r) (sym s.balances)
      (settle_if (same_balances s.now prev) r s prev q refl f k)

compare_txs-IsSettled :
    (r : Replies) (s : Succeeds r) (prev : ℕ × ℕ) (p : Poller)
    → p.prev_height ≡ s.at
    → p.prev_balances ≡ some prev
    → IsSettled (compare_txs p r prev s.txs) r
unfolding compare_txs
compare_txs-IsSettled r s prev p eh eb =
    let hs = no_longer_locked p.prev_locked_txs s.txs in
    let us = fetched_all r s hs in
    let q = record p { prev_locked_txs = s.txs } in
    let l = announce_all_locked q s.txs in
    let framed : frame (announce_all_unlocked l us) ≡ (s.at, s.txs, some prev) =
      announce_all_unlocked-frame l us
      ∙ announce_all_locked-frame q s.txs
      ∙ ap (λ h. (h, s.txs, p.prev_balances)) eh
      ∙ ap (λ o. (s.at, s.txs, o)) eb in
    let known : All (Knows (announce_all_unlocked l us)) s.txs =
      unlocked_keeps_All l p.prev_locked_txs s.txs us s.txs (fetched_all-answers r s hs)
        (has_tx-All s.txs) (announce_all_locked-Knows q s.txs) in
    subst
      (λ o.
        IsSettled
          (elim o [
            | none ↦ q
            | some unlocked ↦
                check_for_changed_balances
                  (announce_all_unlocked (announce_all_locked q s.txs) unlocked) prev r.balances
          ])
          r)
      (sym (fetch_unlocked-fetched r s hs))
      (check_for_changed_balances-IsSettled r s prev (announce_all_unlocked l us) framed known)

poll-IsSettled :
    (p : Poller) (r : Replies) (prev : ℕ × ℕ)
    → p.prev_balances ≡ some prev
    → Succeeds r
    → IsSettled (poll p r) r
unfolding announce_blocks
poll-IsSettled p r prev eb s =
    let reached : poll p r ≡ compare_txs (announce_blocks p s.at) r prev s.txs =
      poll-with p r prev s.open_wallet eb
      ∙ compare_to_previous-with p r prev s.at s.txs s.height s.locked in
    subst (λ q. IsSettled q r) (sym reached)
      (compare_txs-IsSettled r s prev (announce_blocks p s.at) refl eb)

-- A poll, of a poller with its snapshot, whose calls of the wallet all succeed and return only the
-- transactions that were asked for, leaves a poller that a further poll with the same answers leaves
-- as it is: nothing is announced twice.
pub poll-again :
    (p : Poller) (r : Replies) (prev : ℕ × ℕ)
    → p.prev_balances ≡ some prev
    → Succeeds r
    → poll (poll p r) r ≡ poll p r
poll-again p r prev eb s = IsSettled-poll (poll p r) r (poll-IsSettled p r prev eb s)
