-- ===== src/WalletRpc/Requests/Refused.antt =====
-- Why `getTransfersAux` of wallet/MoneroWalletRpc.ts loses nothing when it refuses a query for the pool.
use qwertycoin_ts.Common.{
  ◌≡◌, inl, inr, refl, sym, ap, subst, ◌∙◌, Bool, Bool-cases, true, false, some,
}
use qwertycoin_ts.Common.Result.{ok, err, ok-injective}
use qwertycoin_ts.Queries.{TxData, TxCriteria, meets_tx_criteria}
use qwertycoin_ts.Queries.Transfers.{TransferQuery}
use qwertycoin_ts.Queries.Laws.{IsWantedTx, meets_tx_criteria_iff}
use qwertycoin_ts.WalletRpc.Requests.{
  contradicts_configuration, can_be_in_tx_pool, decode_rpc_type, get_transfers_params, with_flags,
}
use qwertycoin_ts.WalletRpc.Requests.Flags.{pool-can_be}
use qwertycoin_ts.WalletRpc.Requests.Covers.{
  Category, in_chain, out_chain, in_pool, pending, mined, failed, name, IsPoolLike, flagged,
  decode_rpc_type-flagged,
}
use qwertycoin_ts.WalletRpc.Requests.Errors.{
  IsNotOfPool, can_be_in_tx_pool_iff, get_transfers_params-throws_iff,
}

-- A query for the pool is not met outside of it.
outside-unwanted :
    (tq : TxCriteria) (t : TxData)
    → tq.in_tx_pool ≡ some true
    → t.in_tx_pool ≡ some false
    → IsWantedTx tq t
    → ⊥
outside-unwanted tq t asked outside h = elim (h.0.0.0.0.0.0.0.0.0.0.0.0.0.1) [
  | inl free ↦ absurd (cc)
  | inr equal ↦ absurd (cc)
]

inside-unwanted : (tq : TxCriteria) → IsNotOfPool tq → can_be_in_tx_pool tq ≡ true → ⊥
inside-unwanted tq not_of_pool can = absurd (cc ((can_be_in_tx_pool_iff tq).1 not_of_pool))

flagged-unwanted :
    (tq : TxCriteria) (c : Category) (t : TxData)
    → tq.in_tx_pool ≡ some true
    → IsNotOfPool tq
    → IsPoolLike c (flagged c t)
    → IsWantedTx tq (flagged c t)
    → ⊥
unfolding flagged with_flags
flagged-unwanted tq in_chain t asked n pool w =
    outside-unwanted tq (flagged in_chain t) asked refl w
flagged-unwanted tq out_chain t asked n pool w =
    outside-unwanted tq (flagged out_chain t) asked refl w
flagged-unwanted tq mined t asked n pool w = outside-unwanted tq (flagged mined t) asked refl w
flagged-unwanted tq failed t asked n pool w = outside-unwanted tq (flagged failed t) asked refl w
flagged-unwanted tq in_pool t asked n pool w =
    inside-unwanted tq n (pool-can_be tq (flagged in_pool t) w refl refl refl pool.0 pool.1)
flagged-unwanted tq pending t asked n pool w =
    inside-unwanted tq n (pool-can_be tq (flagged pending t) w refl refl refl pool.0 pool.1)

-- If a request is refused because its query contradicts itself, then no transaction meets the query:
-- none with the flags that `decodeRpcType` gives one of the six categories, that is locked and has no
-- height if it is in the pool.
pub get_transfers_params-refused_unmet :
    (q : TransferQuery) (tq : TxCriteria) (c : Category) (t decoded : TxData)
    (outgoing_category : Bool)
    → get_transfers_params q tq ≡ err contradicts_configuration
    → decode_rpc_type (name c) t ≡ ok (outgoing_category, decoded)
    → IsPoolLike c decoded
    → meets_tx_criteria tq decoded ≡ false
get_transfers_params-refused_unmet q tq c t decoded out refused e pool =
    let reason = (get_transfers_params-throws_iff q tq contradicts_configuration).0 refused in
    let same_tx : flagged c t ≡ decoded =
      ap (λ r. r.1) (ok-injective (sym (decode_rpc_type-flagged c t) ∙ e)) in
    elim (Bool-cases (meets_tx_criteria tq decoded)) [
      | inr unmet ↦ unmet
      | inl met ↦ absurd (
          flagged-unwanted tq c t reason.0 reason.1 (subst (IsPoolLike c) (sym same_tx) pool) (
            (meets_tx_criteria_iff tq (flagged c t)).0
              (subst (λ u. meets_tx_criteria tq u ≡ true) (sym same_tx) met)))
    ]
