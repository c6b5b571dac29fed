-- ===== src/WalletRpc/Requests/Covers.antt =====
-- Why the request of `getTransfersAux` misses no transfer that its query accepts.
use qwertycoin_ts.Common.{
  ℕ, ◌<◌, ◌≡◌, ◌≢◌, inl, inr, refl, sym, ap, subst, ◌∙◌, Bool, Bool-cases, true, false, not, List,
  Option, none, some, arith, ltb, Text, text_eq, codes,
}
use qwertycoin_ts.Common.Result.{ok-injective, guard-passes, ok}
use qwertycoin_ts.Queries.Criteria.{Wants, IsAtMost, IsAtLeast}
use qwertycoin_ts.Queries.{TxData, TxCriteria, tx_height, meets_tx_criteria}
use qwertycoin_ts.Queries.Transfers.{Transfer, TransferQuery, is_incoming_kind, meets_transfer}
use qwertycoin_ts.Queries.Laws.{IsWantedTx, meets_tx_criteria_iff}
use qwertycoin_ts.Queries.Transfers.Laws.{IsWantedTransfer, meets_transfer_iff}
use qwertycoin_ts.WalletRpc.Requests.{
  Params, min_height_param, named_indices, unless_empty, params_for, with_account,
  get_transfers_params, with_flags, decode_rpc_type,
}
use qwertycoin_ts.WalletRpc.Requests.Flags.{
  confirmed-can_be, failed-can_be, pool-can_be, kind-can_be_incoming, kind-can_be_outgoing,
}
use qwertycoin_ts.WalletRpc.Requests.Named.{IsTouched, IsTouched-named}

-- The categories of `get_transfers`; a mined transfer comes with the incoming ones.
pub data Category : Type 0 where
  in_chain out_chain in_pool pending mined failed : Category

abbrev pub name : Category → Text
name in_chain = codes "in"
name out_chain = codes "out"
name in_pool = codes "pool"
name pending = codes "pending"
name mined = codes "block"
name failed = codes "failed"

abbrev pub is_asked : Params → Category → Bool
is_asked p in_chain = p.fetch_in
is_asked p out_chain = p.fetch_out
is_asked p in_pool = p.fetch_pool
is_asked p pending = p.fetch_pending
is_asked p mined = p.fetch_in
is_asked p failed = p.fetch_failed

-- A transaction in the pool has no height and is locked.
abbrev pub IsPoolLike : Category → TxData → Type 0
IsPoolLike in_pool t = (tx_height t ≡ none) × (t.is_locked ≡ some true)
IsPoolLike pending t = (tx_height t ≡ none) × (t.is_locked ≡ some true)
IsPoolLike _ t = Unit

-- The server leaves out the least height, and counts the greatest.
abbrev pub IsAbove : Option ℕ → ℕ → Type 0
IsAbove none h = Unit
IsAbove (some lo) h = lo < h

abbrev pub IsInRange : Params → Option ℕ → Type 0
IsInRange p none = Unit
IsInRange p (some h) = IsAbove p.min_height h × IsAtMost p.max_height (some h)

abbrev pub IsOfAccount : Option ℕ → Params → Transfer → Type 0
IsOfAccount none p transfer = p.all_accounts ≡ some true
IsOfAccount (some account) p transfer =
    (transfer.account_index ≡ some account) × IsTouched p.subaddr_indices transfer.kind

min_height-IsAbove :
    (lo : Option ℕ) (h : ℕ) → h ≢ 0 → IsAtLeast lo (some h) → IsAbove (min_height_param lo) h
unfolding min_height_param
min_height-IsAbove none h positive le = tt
min_height-IsAbove (some lo) h positive le = elim (Bool-cases (ltb 0 lo)) [
  | inl above ↦ rw above (ground arith)
  | inr least ↦ rw least (ground arith)
]

-- The direction and the flags of each category.
pub is_outgoing_category : Category → Bool
is_outgoing_category in_chain = false
is_outgoing_category out_chain = true
is_outgoing_category in_pool = false
is_outgoing_category pending = true
is_outgoing_category mined = false
is_outgoing_category failed = true

unfoldable pub flagged : Category → TxData → TxData
unfolding with_flags
flagged in_chain t = with_flags true false true false false t
flagged out_chain t = with_flags true false true false false t
flagged in_pool t = with_flags false true true false false t
flagged pending t = with_flags false true true false false t
flagged mined t = with_flags true false true false true t
flagged failed t = with_flags false false false true false t

pub decode_rpc_type-flagged :
    (c : Category) (t : TxData)
    → decode_rpc_type (name c) t ≡ ok (is_outgoing_category c, flagged c t)
unfolding decode_rpc_type is_outgoing_category flagged text_eq
decode_rpc_type-flagged in_chain t = refl
decode_rpc_type-flagged out_chain t = refl
decode_rpc_type-flagged in_pool t = refl
decode_rpc_type-flagged pending t = refl
decode_rpc_type-flagged mined t = refl
decode_rpc_type-flagged failed t = refl

params_for-asks :
    (q : TransferQuery) (tq : TxCriteria) (account : Option ℕ) (is : Option (List ℕ)) (c : Category)
    (t : TxData) (transfer : Transfer)
    → is_incoming_kind transfer.kind ≡ not (is_outgoing_category c)
    → IsPoolLike c (flagged c t)
    → IsWantedTx tq (flagged c t)
    → IsWantedTransfer q transfer
    → is_asked (params_for q tq account is) c ≡ true
unfolding is_outgoing_category flagged params_for
params_for-asks q tq account is in_chain t transfer d pool w h =
    rw
      (
        kind-can_be_incoming q transfer d h,
        confirmed-can_be tq (flagged in_chain t) w refl refl refl refl,
      )
      refl
params_for-asks q tq account is out_chain t transfer d pool w h =
    rw
      (
        kind-can_be_outgoing q transfer d h,
        confirmed-can_be tq (flagged out_chain t) w refl refl refl refl,
      )
      refl
params_for-asks q tq account is in_pool t transfer d pool w h =
    rw
      (
        kind-can_be_incoming q transfer d h,
        pool-can_be tq (flagged in_pool t) w refl refl refl pool.0 pool.1,
      )
      refl
params_for-asks q tq account is pending t transfer d pool w h =
    rw
      (
        kind-can_be_outgoing q transfer d h,
        pool-can_be tq (flagged pending t) w refl refl refl pool.0 pool.1,
      )
      refl
params_for-asks q tq account is mined t transfer d pool w h =
    rw
      (
        kind-can_be_incoming q transfer d h,
        confirmed-can_be tq (flagged mined t) w refl refl refl refl,
      )
      refl
params_for-asks q tq account is failed t transfer d pool w h =
    failed-can_be tq (flagged failed t) w refl refl refl

-- What a request says of a transfer that meets its query.
abbrev pub IsFetched : Params → Category → Option ℕ → Transfer → Type 0
IsFetched p c height transfer =
    (is_asked p c ≡ true) × IsInRange p height × IsOfAccount p.account_index p transfer

IsWanted-some : {v : Option ℕ} {n : ℕ} → Wants (some n) v → v ≡ some n
IsWanted-some wanted = elim wanted [ inl free ↦ absurd (cc) | inr same ↦ sym same ]

module _ (q : TransferQuery) (tq : TxCriteria) (c : Category) (t : TxData) (transfer : Transfer)
    (d : is_incoming_kind transfer.kind ≡ not (is_outgoing_category c))
    (pool : IsPoolLike c (flagged c t)) (positive : tx_height (flagged c t) ≢ some 0)
    (w : IsWantedTx tq (flagged c t)) (h : IsWantedTransfer q transfer) where
  params_for-IsInRange :
      (account : Option ℕ) (is : Option (List ℕ)) (height : Option ℕ)
      → tx_height (flagged c t) ≡ height
      → IsInRange (params_for q tq account is) height
  unfolding params_for
  params_for-IsInRange account is none e = tt
  params_for-IsInRange account is (some n) e = (
    min_height-IsAbove tq.min_height n (λ z. positive (e ∙ ap some z))
        (subst (IsAtLeast tq.min_height) e w.0.1),
    subst (IsAtMost tq.max_height) e w.1,
  )

  with_account-IsFetched :
      (account : Option ℕ) (p : Params)
      → q.account_index ≡ account
      → with_account q tq account ≡ ok p
      → IsFetched p c (tx_height (flagged c t)) transfer
  unfolding with_account params_for
  with_account-IsFetched none p e sent =
      subst (λ p. IsFetched p c (tx_height (flagged c t)) transfer)
        (ok-injective (guard-passes _ _ _ p sent).1)
        (
          params_for-asks q tq none none c t transfer d pool w h,
          params_for-IsInRange none none _ refl,
          refl,
        )
  with_account-IsFetched (some account) p e sent =
      subst (λ p. IsFetched p c (tx_height (flagged c t)) transfer) (ok-injective sent)
        (
          params_for-asks q tq (some account)
              (unless_empty (named_indices q.subaddress_index q.subaddress_indices)) c t transfer d
              pool w h,
          params_for-IsInRange (some account)
              (unless_empty (named_indices q.subaddress_index q.subaddress_indices)) _ refl,
          (
            IsWanted-some (subst (λ a. Wants a transfer.account_index) e h.0.1),
            IsTouched-named q transfer.kind h.1,
          ),
        )

-- Requests lose nothing: take a transaction with the flags that `decodeRpcType` gives its
-- category, not in the genesis block, and locked and without a height if it is in the pool. If it
-- meets the transaction query and its transfer, in the direction of the category, meets the
-- transfer query, then a request that is sent asks for the category, its heights include the
-- transaction's, and it names all accounts, or the account of the transfer and one of its
-- subaddresses if it names any.
pub get_transfers_params-IsFetched :
    (q : TransferQuery) (tq : TxCriteria) (c : Category) (t decoded : TxData) (transfer : Transfer)
    (outgoing_category : Bool) (p : Params)
    → decode_rpc_type (name c) t ≡ ok (outgoing_category, decoded)
    → is_incoming_kind transfer.kind ≡ not outgoing_category
    → IsPoolLike c decoded
    → tx_height decoded ≢ some 0
    → meets_tx_criteria tq decoded ≡ true
    → meets_transfer q transfer ≡ true
    → get_transfers_params q tq ≡ ok p
    → IsFetched p c (tx_height decoded) transfer
unfolding get_transfers_params
get_transfers_params-IsFetched q tq c t decoded transfer out p e d pool positive met met_transfer
      sent =
    let same = ok-injective (sym (decode_rpc_type-flagged c t) ∙ e) in
    let outgoing_same = ap (λ r. r.0) same in
    let same_tx = ap (λ r. r.1) same in
    subst (λ u. IsFetched p c (tx_height u) transfer) same_tx
      (with_account-IsFetched q tq c t transfer
        (subst (λ b. is_incoming_kind transfer.kind ≡ not b) (sym outgoing_same) d)
        (subst (IsPoolLike c) (sym same_tx) pool)
        (subst (λ u. tx_height u ≢ some 0) (sym same_tx) positive)
        ((meets_tx_criteria_iff tq (flagged c t)).0
          (subst (λ u. meets_tx_criteria tq u ≡ true) (sym same_tx) met))
        ((meets_transfer_iff q transfer).0 met_transfer) q.account_index p refl
        (guard-passes _ _ _ p sent).1)
