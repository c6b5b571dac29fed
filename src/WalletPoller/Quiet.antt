-- ===== src/WalletPoller/Quiet.antt =====
-- The transactions whose outputs the poller of MoneroWalletRpc.ts has announced.
use qwertycoin_ts.Common.{ℕ, ◌≡◌, ◌≢◌, refl, Bool, true, false, List, [], ◌∷◌, arith, includes, All}
use qwertycoin_ts.WalletPoller.{
  Poller, WalletTx, announce_in, announce_locked, announce_all_locked, announce_unlocked,
  announce_all_unlocked, no_longer_locked, has_tx, add, delete,
}

-- Whether the outputs of a locked transaction were announced.
abbrev pub known_in : Bool → Poller → ℕ → Bool
known_in true p hash = includes p.prev_confirmed hash
known_in false p hash = includes p.prev_unconfirmed hash

abbrev pub Knows : Poller → WalletTx → Type 0
Knows p tx = known_in tx.is_confirmed p tx.hash ≡ true

includes-add : (h x : ℕ) (hs : List ℕ) → includes hs x ≡ true → includes (add h hs) x ≡ true
includes-add h x hs e = ground arith

includes-add_self : (h : ℕ) (hs : List ℕ) → includes (add h hs) h ≡ true
includes-add_self h hs = ground arith

includes-delete :
    (h x : ℕ) (hs : List ℕ) → x ≢ h → includes hs x ≡ true → includes (delete h hs) x ≡ true
includes-delete h x [] n e = e
includes-delete h x (y ∷ hs) n e = ground (arith, includes-delete h x hs n)

announce_in-known :
    (b c : Bool) (p : Poller) (tx : WalletTx) (hash : ℕ)
    → known_in c p hash ≡ true
    → known_in c (announce_in b p tx) hash ≡ true
unfolding announce_in
announce_in-known true true p tx hash e =
    ground (arith, includes-add tx.hash hash p.prev_confirmed e)
announce_in-known true false p tx hash e = ground arith
announce_in-known false true p tx hash e = ground arith
announce_in-known false false p tx hash e =
    ground (arith, includes-add tx.hash hash p.prev_unconfirmed e)

announce_in-knows :
    (b : Bool) (p : Poller) (tx : WalletTx) → known_in b (announce_in b p tx) tx.hash ≡ true
unfolding announce_in
announce_in-knows true p tx = ground (arith, includes-add_self tx.hash p.prev_confirmed)
announce_in-knows false p tx = ground (arith, includes-add_self tx.hash p.prev_unconfirmed)

announce_all_locked-keeps :
    (p : Poller) (txs : List WalletTx) (tx : WalletTx)
    → Knows p tx
    → Knows (announce_all_locked p txs) tx
unfolding announce_all_locked announce_locked
announce_all_locked-keeps p [] tx k = k
announce_all_locked-keeps p (t ∷ txs) tx k =
    announce_all_locked-keeps (announce_locked p t) txs tx
      (announce_in-known t.is_confirmed tx.is_confirmed p t tx.hash k)

pub announce_all_locked-Knows :
    (p : Poller) (txs : List WalletTx) → All (Knows (announce_all_locked p txs)) txs
unfolding announce_all_locked announce_locked
announce_all_locked-Knows p [] = tt
announce_all_locked-Knows p (tx ∷ txs) = (
  announce_all_locked-keeps (announce_locked p tx) txs tx (announce_in-knows tx.is_confirmed p tx),
  announce_all_locked-Knows (announce_locked p tx) txs,
)

announce_unlocked-known :
    (b : Bool) (p : Poller) (u : WalletTx) (hash : ℕ)
    → hash ≢ u.hash
    → known_in b p hash ≡ true
    → known_in b (announce_unlocked p u) hash ≡ true
unfolding announce_unlocked
announce_unlocked-known true p u hash n e =
    ground (arith, includes-delete u.hash hash p.prev_confirmed n e)
announce_unlocked-known false p u hash n e =
    ground (arith, includes-delete u.hash hash p.prev_unconfirmed n e)

pub announce_all_unlocked-keeps :
    (p : Poller) (us : List WalletTx) (tx : WalletTx)
    → All (λ u. tx.hash ≢ u.hash) us
    → Knows p tx
    → Knows (announce_all_unlocked p us) tx
unfolding announce_all_unlocked
announce_all_unlocked-keeps p [] tx apart k = k
announce_all_unlocked-keeps p (u ∷ us) tx apart k =
    announce_all_unlocked-keeps (announce_unlocked p u) us tx apart.1
      (announce_unlocked-known tx.is_confirmed p u tx.hash apart.0 k)

has_tx_self : (tx : WalletTx) (txs : List WalletTx) → has_tx (tx ∷ txs) tx.hash ≡ true
unfolding has_tx
has_tx_self tx txs = ground arith

has_tx-cons :
    (t : WalletTx) (txs : List WalletTx) (h : ℕ) → has_tx txs h ≡ true → has_tx (t ∷ txs) h ≡ true
unfolding has_tx
has_tx-cons t txs h e = ground arith

has_tx-All_cons :
    (t : WalletTx) (txs ts : List WalletTx)
    → All (λ x. has_tx txs x.hash ≡ true) ts
    → All (λ x. has_tx (t ∷ txs) x.hash ≡ true) ts
has_tx-All_cons t txs [] a = tt
has_tx-All_cons t txs (x ∷ ts) a = (has_tx-cons t txs x.hash a.0, has_tx-All_cons t txs ts a.1)

pub has_tx-All : (txs : List WalletTx) → All (λ x. has_tx txs x.hash ≡ true) txs
has_tx-All [] = tt
has_tx-All (t ∷ txs) = (has_tx_self t txs, has_tx-All_cons t txs txs (has_tx-All txs))

-- The hashes that are no longer locked are not those of locked transactions.
pub no_longer_locked-has_tx :
    (txs locked : List WalletTx) (h : ℕ)
    → includes (no_longer_locked txs locked) h ≡ true
    → has_tx locked h ≡ false
unfolding no_longer_locked
no_longer_locked-has_tx [] locked h e = ground arith
no_longer_locked-has_tx (t ∷ txs) locked h e = ground (arith, no_longer_locked-has_tx txs locked h)

pub no_longer_locked-All :
    (txs locked : List WalletTx)
    → All (λ x. has_tx locked x.hash ≡ true) txs
    → no_longer_locked txs locked ≡ []
unfolding no_longer_locked
no_longer_locked-All [] locked a = refl
no_longer_locked-All (t ∷ txs) locked a = rw (a.0) (no_longer_locked-All txs locked a.1)

-- A transaction whose outputs were announced changes nothing.
announce_locked-known_lem :
    (b : Bool) (p : Poller) (tx : WalletTx) → known_in b p tx.hash ≡ true → announce_in b p tx ≡ p
unfolding announce_in
announce_locked-known_lem true p tx e = rw e refl
announce_locked-known_lem false p tx e = rw e refl

pub announce_all_locked-known :
    (p : Poller) (txs : List WalletTx) → All (Knows p) txs → announce_all_locked p txs ≡ p
unfolding announce_all_locked announce_locked
announce_all_locked-known p [] a = refl
announce_all_locked-known p (tx ∷ txs) a =
    rw (announce_locked-known_lem tx.is_confirmed p tx a.0) (announce_all_locked-known p txs a.1)
