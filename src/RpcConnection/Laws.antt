-- ===== src/RpcConnection/Laws.antt =====
-- Checks and credentials of a connection (MoneroRpcConnection.ts).
use qwertycoin_ts.Common.{
  ℕ, ◌≤◌, ◌<◌, ◌≡◌, ◌≢◌, ◌↔◌, ◌⊎◌, true, false, [], ◌∷◌, Option, none, some, arith, Text,
  same_flag_iff,
}
use qwertycoin_ts.Common.Result.{returns}
use qwertycoin_ts.RpcConnection.{
  RpcConnection, HttpReply, reply, thrown, check_connection, is_connected, set_credentials, defined,
}

-- `checkConnection` reports a change exactly when the online status or the authentication status
-- differs from before.
pub check_connection-change_iff :
    (c : RpcConnection) (r : HttpReply) (elapsed : ℕ)
    → ((check_connection c r elapsed).1 ≡ false) ↔ (
        ((check_connection c r elapsed).0.is_online ≡ c.is_online)
        × ((check_connection c r elapsed).0.is_authenticated ≡ c.is_authenticated))
unfolding check_connection
check_connection-change_iff c r elapsed =
    let c' = (check_connection c r elapsed).0 in
    ground (
      arith,
      same_flag_iff c.is_online c'.is_online,
      same_flag_iff c.is_authenticated c'.is_authenticated,
    )

-- The code by which a request fails: the status of a reply that is no success, the code in the body
-- of one that is, or the code of the exception.
abbrev pub FailsWith : HttpReply → ℕ → Type 0
FailsWith (reply status none) code = ((status < 200) ⊎ (299 < status)) × (code ≡ status)
FailsWith (reply status (some error)) code =
    (((status < 200) ⊎ (299 < status)) × (code ≡ status))
    ⊎ ((200 ≤ status) × (status ≤ 299) × (error ≡ some code))
FailsWith (thrown error) code = error ≡ some code

abbrev pub Succeeds : HttpReply → Type 0
Succeeds (reply status none) = (200 ≤ status) × (status ≤ 299)
Succeeds _ = ⊥

-- After a check a connection is connected exactly when it is not fake disconnected and the request
-- succeeds or fails with 404. It is known whether it is.
pub check_connection-connected_iff :
    (c : RpcConnection) (r : HttpReply) (elapsed : ℕ)
    → let c' = (check_connection c r elapsed).0 in
      (is_connected c' ≢ none)
      × ((is_connected c' ≡ some true)
          ↔ ((c.fake_disconnected ≡ false) × (Succeeds r ⊎ FailsWith r 404)))
unfolding check_connection is_connected
check_connection-connected_iff c (reply status none) elapsed = ground arith
check_connection-connected_iff c (reply status (some none)) elapsed = ground arith
check_connection-connected_iff c (reply status (some (some e))) elapsed = ground arith
check_connection-connected_iff c (thrown none) elapsed = ground arith
check_connection-connected_iff c (thrown (some e)) elapsed = ground arith

-- After a check a connection is online exactly when its response time is known; and it is online
-- but not authenticated exactly when it is not fake disconnected and the request fails with 401.
pub check_connection-status :
    (c : RpcConnection) (r : HttpReply) (elapsed : ℕ)
    → let c' = (check_connection c r elapsed).0 in
      ((c'.is_online ≡ some true) ↔ (c'.response_time ≡ some elapsed))
      × ((c'.is_authenticated ≡ some false) ↔ ((c.fake_disconnected ≡ false) × FailsWith r 401))
unfolding check_connection
check_connection-status c (reply status none) elapsed = ground arith
check_connection-status c (reply status (some none)) elapsed = ground arith
check_connection-status c (reply status (some (some e))) elapsed = ground arith
check_connection-status c (thrown none) elapsed = ground arith
check_connection-status c (thrown (some e)) elapsed = ground arith

-- Credentials are accepted exactly when the username and the password are both given or both
-- missing, where the empty text counts as missing.
pub set_credentials-accepts_iff :
    (c : RpcConnection) (username password : Option Text)
    → (returns (set_credentials c username password) ≡ true)
      ↔ ((defined username ≡ none) ↔ (defined password ≡ none))
unfolding set_credentials
set_credentials-accepts_iff c none none = ground arith
set_credentials-accepts_iff c none (some []) = ground arith
set_credentials-accepts_iff c none (some (p ∷ ps)) = ground arith
set_credentials-accepts_iff c (some []) none = ground arith
set_credentials-accepts_iff c (some []) (some []) = ground arith
set_credentials-accepts_iff c (some []) (some (p ∷ ps)) = ground arith
set_credentials-accepts_iff c (some (u ∷ us)) none = ground arith
set_credentials-accepts_iff c (some (u ∷ us)) (some []) = ground arith
set_credentials-accepts_iff c (some (u ∷ us)) (some (p ∷ ps)) = ground arith
