-- ===== src/WalletRpc/Requests/Errors.antt =====
-- When `getTransfersAux` of wallet/MoneroWalletRpc.ts refuses a query before it sends a request.
use qwertycoin_ts.Common.{
  ℕ, ◌≡◌, ◌≢◌, ◌↔◌, ◌⊎◌, inl, inr, refl, Bool, Bool-cases, true, false, not, ◌&&◌, Option, none,
  some, arith, same_flag, same_flag_iff,
}
use qwertycoin_ts.Common.Result.{Result, err}
use qwertycoin_ts.Queries.{TxCriteria}
use qwertycoin_ts.Queries.Transfers.{TransferQuery}
use qwertycoin_ts.WalletRpc.Requests.{
  Params, RequestError, contradicts_configuration, subaddress_without_account, unrecognized_type,
  differs, is_missing, can_be_in_tx_pool, with_account, get_transfers_params,
}

-- The criteria for which the source takes it that no transaction of the pool meets them.
abbrev pub IsNotOfPool : TxCriteria → Type 0
IsNotOfPool t =
    ((((((t.is_confirmed ≡ some true) ⊎ (t.in_tx_pool ≡ some false)) ⊎ (t.is_failed ≡ some true))
          ⊎ (t.height ≢ none))
        ⊎ (t.max_height ≢ none))
      ⊎ (t.is_locked ≡ some false))

abbrev pub NamesSubaddress : TransferQuery → Type 0
NamesSubaddress q = (q.subaddress_index ≢ none) ⊎ (q.subaddress_indices ≢ none)

-- Why a query is refused; the first reason wins.
abbrev pub Reason : TransferQuery → TxCriteria → RequestError → Type 0
Reason q t contradicts_configuration = (t.in_tx_pool ≡ some true) × IsNotOfPool t
Reason q t subaddress_without_account =
    (¬ ((t.in_tx_pool ≡ some true) × IsNotOfPool t)) × (q.account_index ≡ none) × NamesSubaddress q
Reason q t (unrecognized_type name) = ⊥

differs_iff : (o : Option Bool) (b : Bool) → (differs o b ≡ false) ↔ (o ≡ some b)
differs_iff o b = ground (arith, same_flag_iff o (some b))

is_missing_iff {ℓ} : {A : Type ℓ} (o : Option A) → (is_missing o ≡ false) ↔ (o ≢ none)
is_missing_iff none = ground arith
is_missing_iff (some a) = ground arith

fails_iff :
    {P Q : Type 0} {a b : Bool}
    → ((a ≡ false) ↔ P)
    → ((b ≡ false) ↔ Q)
    → ((a && b) ≡ false) ↔ (P ⊎ Q)
fails_iff {a = true} p q =
    (λ h. inr (q.0 h), λ h. elim h [ inl x ↦ absurd (cc (p.1 x)) | inr y ↦ q.1 y ])
fails_iff {a = false} p q = (λ h. inl (p.0 refl), λ h. refl)

pub can_be_in_tx_pool_iff : (t : TxCriteria) → (can_be_in_tx_pool t ≡ false) ↔ IsNotOfPool t
unfolding can_be_in_tx_pool
can_be_in_tx_pool_iff t =
    fails_iff
      (fails_iff
        (fails_iff
          (fails_iff (fails_iff (differs_iff t.is_confirmed true) (differs_iff t.in_tx_pool false))
            (differs_iff t.is_failed true))
          (is_missing_iff t.height))
        (is_missing_iff t.max_height))
      (differs_iff t.is_locked false)

contradicts_iff :
    (t : TxCriteria)
    → (not (same_flag t.in_tx_pool (some true) && not (can_be_in_tx_pool t)) ≡ false)
      ↔ ((t.in_tx_pool ≡ some true) × IsNotOfPool t)
contradicts_iff t =
    let pool = same_flag_iff t.in_tx_pool (some true) in
    let never = can_be_in_tx_pool_iff t in
    elim (Bool-cases (same_flag t.in_tx_pool (some true))) [
      | inl a ↦ elim (Bool-cases (can_be_in_tx_pool t)) [
        | inl b ↦ rw (a, b) (λ h. absurd (cc), λ h. absurd (cc (never.1 h.1)))
        | inr b ↦ rw (a, b) (λ h. (pool.0 a, never.0 b), λ h. refl)
      ]
      | inr a ↦ rw a (λ h. absurd (cc), λ h. absurd (cc (pool.1 h.0)))
    ]

-- A refusal behind a first test that may refuse for another reason.
with_account_iff :
    (q : TransferQuery) (t : TxCriteria) (account : Option ℕ)
    → (with_account q t account ≡ err subaddress_without_account)
      ↔ ((account ≡ none) × NamesSubaddress q)
unfolding with_account
with_account_iff q t (some account) = (λ h. absurd (cc), λ h. absurd (cc))
with_account_iff q t none =
    let named =
      fails_iff (is_missing_iff q.subaddress_index) (is_missing_iff q.subaddress_indices) in
    elim (Bool-cases (is_missing q.subaddress_index && is_missing q.subaddress_indices)) [
      | inl free ↦ rw free (λ h. absurd (cc), λ h. absurd (cc (named.1 h.1)))
      | inr names ↦ rw names (λ h. (refl, named.0 names), λ h. refl)
    ]

with_account-throws :
    (q : TransferQuery) (t : TxCriteria) (account : Option ℕ) (e : RequestError)
    → with_account q t account ≡ err e
    → e ≡ subaddress_without_account
unfolding with_account
with_account-throws q t (some account) e h = absurd (cc)
with_account-throws q t none e h =
    elim (Bool-cases (is_missing q.subaddress_index && is_missing q.subaddress_indices)) [
      | inl free ↦ absurd (cc (rw free at h))
      | inr names ↦ cc (rw names at h)
    ]

-- Which queries are refused before anything is sent: one for the pool that also asks for confirmed
-- or failed transactions, for ones that are not in the pool or not locked, or for a height or a
-- greatest height; and, if that is not so, one that names subaddresses without an account. No other
-- error is thrown.
pub get_transfers_params-throws_iff :
    (q : TransferQuery) (t : TxCriteria) (e : RequestError)
    → (get_transfers_params q t ≡ err e) ↔ Reason q t e
unfolding get_transfers_params
get_transfers_params-throws_iff q t e =
    let contradicts = contradicts_iff t in
    elim (Bool-cases (not (same_flag t.in_tx_pool (some true) && not (can_be_in_tx_pool t)))) [
      | inl passes ↦ rw passes (behind passes e)
      | inr refused ↦ rw refused (first (contradicts.0 refused) e)
    ]
  where
    first :
        (t.in_tx_pool ≡ some true) × IsNotOfPool t
        → (e : RequestError)
        → (◌≡◌ {A = Result RequestError Params} (err contradicts_configuration) (err e))
          ↔ Reason q t e
    first r contradicts_configuration = (λ h. r, λ h. refl)
    first r subaddress_without_account = (λ h. absurd (cc), λ h. absurd (h.0 r))
    first r (unrecognized_type name) = (λ h. absurd (cc), λ h. absurd h)

    behind :
        (not (same_flag t.in_tx_pool (some true) && not (can_be_in_tx_pool t)) ≡ true)
        → (e : RequestError) → (with_account q t q.account_index ≡ err e) ↔ Reason q t e
    behind passes contradicts_configuration = (
      λ h. absurd (cc (with_account-throws q t q.account_index _ h)),
      λ h. absurd (cc ((contradicts_iff t).1 h)),
    )
    behind passes subaddress_without_account = (
      λ h. (
        λ r. absurd (cc ((contradicts_iff t).1 r)),
        ((with_account_iff q t q.account_index).0 h).0,
        ((with_account_iff q t q.account_index).0 h).1,
      ),
      λ h. (with_account_iff q t q.account_index).1 (h.1, h.2),
    )
    behind passes (unrecognized_type name) =
        (λ h. absurd (cc (with_account-throws q t q.account_index _ h)), λ h. absurd h)
