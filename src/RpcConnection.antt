-- ===== src/RpcConnection.antt =====
-- src/main/ts/common/MoneroRpcConnection.ts. A text, number or flag that may be undefined is an
-- `Option`. What the HTTP client answers and what the clock measures are arguments of a check.
pub mod Laws
pub mod Requests
use qwertycoin_ts.Common.{
  ℕ, ◌≡◌, Bool, true, false, not, ◌&&◌, ◌||◌, List, [], ◌∷◌, Option, none, some, ltb, ◌==◌,
  if◌then◌else◌, same_flag, Text, same_text,
}
use qwertycoin_ts.Common.Result.{Result, ok, err, ◌>>=◌}
use qwertycoin_ts.GenUtils.Strings.{TextError, normalize_uri}

pub data ConnectionError : Type 0 where
  username_missing password_missing config_and_params negative_priority : ConnectionError

pub record RpcConnection : Type 0 where
  pub uri : Option Text
  pub username : Option Text
  pub password : Option Text
  pub zmq_uri : Option Text
  pub proxy_uri : Option Text
  pub reject_unauthorized : Bool
  pub proxy_to_worker : Bool
  pub priority : ℕ
  pub timeout_ms : Option ℕ
  pub is_online : Option Bool
  pub is_authenticated : Option Bool
  pub response_time : Option ℕ
  pub fake_disconnected : Bool

-- `DEFAULT_CONFIG`, with the fields that a new object does not have undefined.
abbrev pub default_config : RpcConnection
default_config = record {
  uri = none;
  username = none;
  password = none;
  zmq_uri = none;
  proxy_uri = none;
  reject_unauthorized = true;
  proxy_to_worker = false;
  priority = 0;
  timeout_ms = none;
  is_online = none;
  is_authenticated = none;
  response_time = none;
  fake_disconnected = false;
}

-- The empty text counts as undefined.
abbrev pub defined : Option Text → Option Text
defined (some []) = none
defined t = t

abbrev with_credentials : RpcConnection → Option Text → Option Text → RpcConnection
with_credentials c username password =
    if same_text (defined c.username) username && same_text (defined c.password) password
    then record c { username = username; password = password }
    else record c {
      username = username;
      password = password;
      is_online = none;
      is_authenticated = none;
    }

set_defined : RpcConnection → Option Text → Option Text → Result ConnectionError RpcConnection
set_defined c (some u) none = err password_missing
set_defined c none (some p) = err username_missing
set_defined c username password = ok (with_credentials c username password)

unfoldable pub set_credentials :
    RpcConnection → Option Text → Option Text → Result ConnectionError RpcConnection
unfolding set_defined
set_credentials c username password = set_defined c (defined username) (defined password)

-- `if (uri) uri = normalizeUri(uri)`
abbrev normalized : Option Text → Option Text
normalized none = none
normalized (some uri) = elim (normalize_uri uri) [ Result.ok u ↦ some u | Result.err e ↦ some uri ]

abbrev normalize_uris : RpcConnection → RpcConnection
normalize_uris c = record c {
  uri = normalized c.uri;
  zmq_uri = normalized c.zmq_uri;
  proxy_uri = normalized c.proxy_uri;
}

-- The constructor given a URI.
unfoldable pub from_uri : Text → Option Text → Option Text → Result ConnectionError RpcConnection
from_uri uri username password = do
  c ← set_credentials (record default_config { uri = some uri }) username password
  ok (normalize_uris c)

-- The constructor given a configuration, whose fields stand over the defaults, and perhaps
-- credentials.
unfoldable pub from_config :
    RpcConnection → Option Text → Option Text → Result ConnectionError RpcConnection
from_config config none none = do
  c ← set_credentials config config.username config.password
  ok (normalize_uris c)
from_config config _ _ = err config_and_params

-- A number that may be negative is outside the model, so the guard of `setPriority` always holds.
unfoldable pub set_priority : RpcConnection → ℕ → RpcConnection
set_priority c priority = record c { priority = priority }

unfoldable pub set_proxy_to_worker : RpcConnection → Bool → RpcConnection
set_proxy_to_worker c b = record c { proxy_to_worker = b }

-- What an HTTP request comes to: a reply with its status code and the code of an `error` in its
-- body, or an exception with the status code that it carries.
pub data HttpReply : Type 0 where
  reply : (status_code : ℕ) → (rpc_error : Option (Option ℕ)) → HttpReply
  thrown : (status_code : Option ℕ) → HttpReply

-- What `sendBinaryRequest` returns or throws; every throw is a `MoneroRpcError` with a code.
pub data Outcome : Type 0 where
  answered : Outcome
  failed : (code : Option ℕ) → Outcome

-- `validateHttpResponse`
abbrev pub is_success : ℕ → Bool
is_success code = not (ltb code 200 || ltb 299 code)

body_outcome : Option (Option ℕ) → Outcome
body_outcome none = answered
body_outcome (some code) = failed code

unfoldable pub send_binary_request : HttpReply → Outcome
unfolding body_outcome
send_binary_request (reply code error) =
    if is_success code then body_outcome error else failed (some code)
send_binary_request (thrown code) = failed code

abbrev with_status : RpcConnection → Option Bool → Option Bool → Option ℕ → RpcConnection
with_status c online authenticated time = record c {
  is_online = online;
  is_authenticated = authenticated;
  response_time = time;
}

-- The `try` and the `catch` of `checkConnection`, and the response time of an online connection.
unfoldable pub after_outcome : RpcConnection → Outcome → ℕ → RpcConnection
after_outcome c answered elapsed = with_status c (some true) (some true) (some elapsed)
after_outcome c (failed none) elapsed = with_status c (some false) none none
after_outcome c (failed (some code)) elapsed =
    if code == 401
    then with_status c (some true) (some false) (some elapsed)
    else if code == 404
    then with_status c (some true) (some true) (some elapsed)
    else with_status c (some false) none none

-- A fake disconnection throws an error that is no `MoneroRpcError`, before the request.
abbrev pub request_outcome : RpcConnection → HttpReply → Outcome
request_outcome c r = if c.fake_disconnected then failed none else send_binary_request r

-- `checkConnection`: the connection afterwards, and whether its status changed.
unfoldable pub check_connection : RpcConnection → HttpReply → ℕ → RpcConnection × Bool
unfolding after_outcome send_binary_request
check_connection c r elapsed =
    let c' = after_outcome c (request_outcome c r) elapsed in
    (
      c',
      not (same_flag c.is_online c'.is_online)
          || not (same_flag c.is_authenticated c'.is_authenticated),
    )

-- `isOnline && isAuthenticated !== false`, undefined if the status is.
unfoldable pub is_connected : RpcConnection → Option Bool
is_connected c = elim c.is_online [
  | none ↦ none
  | some online ↦ some (online && not (same_flag c.is_authenticated (some false)))
]
