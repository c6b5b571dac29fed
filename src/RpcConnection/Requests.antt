-- ===== src/RpcConnection/Requests.antt =====
-- `sendJsonRequest` and `sendPathRequest` of common/MoneroRpcConnection.ts, given what the HTTP client
-- returns or throws. `JSON.parse` on a body whose long numbers are quoted is the parameter `parse`:
-- it gives the object, or nothing if it throws. Logging is left out.
use qwertycoin_ts.Common.{
  ℕ, ◌≤◌, ◌≡◌, ◌↔◌, refl, sym, subst, Bool, true, false, [], ◌∷◌, Option, none, some, arith, ◌==◌,
  if◌then◌else◌, Text, Bool-cases, Option-cases, inl, inr,
}
use qwertycoin_ts.Common.Result.{Result, ok, err, ◌>>=◌}
use qwertycoin_ts.RpcConnection.{is_success}

pub record RpcError : Type 0 where
  pub message : Text
  pub code : Option ℕ

-- The object that is parsed and returned: its `error`, and the rest of it, which is not read.
pub record Parsed (J : Type 0) : Type 0 where
  pub error : Option RpcError
  pub rest : J

pub record HttpResponse : Type 0 where
  pub status_code : ℕ
  pub body : Text

-- What the HTTP client throws.
pub record HttpFailure : Type 0 where
  pub status_code : Option ℕ

-- What a `MoneroRpcError` is built from.
pub data Description : Type 0 where
  status_line : ℕ → Text → Description
  described : Text → Description
  raw_body : Text → Description
  cause : Description

pub record MoneroRpcError : Type 0 where
  pub description : Description
  pub code : Option ℕ
  pub rpc_method : Option Text

unfoldable pub validate_http_response : HttpResponse → Result MoneroRpcError HttpResponse
validate_http_response r =
    if is_success r.status_code
    then ok r
    else err (record {
      description = status_line r.status_code r.body;
      code = some r.status_code;
      rpc_method = none;
    })

-- The message for an empty one is built, but the error is thrown with the message of the reply.
unfoldable pub validate_rpc_response :
    {J : Type 0} → Text → Parsed J → Result MoneroRpcError (Parsed J)
validate_rpc_response method p = elim p.error [
  | none ↦ ok p
  | some e ↦
      err (record { description = described e.message; code = e.code; rpc_method = some method })
]

unfoldable pub starts_with_brace : Text → Bool
starts_with_brace [] = false
starts_with_brace (c ∷ s) = c == b'{'

-- The `catch` for an error that is no `MoneroRpcError`.
abbrev pub wrapped : Description → Option ℕ → Text → MoneroRpcError
wrapped d code method = record { description = d; code = code; rpc_method = some method }

module _ {J : Type 0} (parse : Text → Option (Parsed J)) where
  unfoldable pub deserialize : Text → Text → Result MoneroRpcError (Parsed J)
  unfolding starts_with_brace
  deserialize method body =
      if starts_with_brace body
      then elim (parse body) [ none ↦ err (wrapped cause none method) | some p ↦ ok p ]
      else err (wrapped (raw_body body) none method)

  unfoldable pub send_json_request :
      Text → Result HttpFailure HttpResponse → Result MoneroRpcError (Parsed J)
  unfolding deserialize validate_http_response validate_rpc_response
  send_json_request method (err e) = err (wrapped cause e.status_code method)
  send_json_request method (ok r) = do
    r ← validate_http_response r
    p ← deserialize method r.body
    validate_rpc_response method p

  -- A body that starts with a brace is no string, so the second `JSON.parse` is not reached.
  unfoldable pub send_path_request :
      Text → Result HttpFailure HttpResponse → Result MoneroRpcError (Parsed J)
  unfolding deserialize validate_http_response validate_rpc_response
  send_path_request path (err e) = err (wrapped cause e.status_code path)
  send_path_request path (ok r) = do
    r ← validate_http_response r
    p ← deserialize path r.body
    validate_rpc_response path p

validate_ok :
    {J : Type 0} (method : Text) (p : Parsed J)
    → p.error ≡ none
    → validate_rpc_response method p ≡ ok p
unfolding validate_rpc_response
validate_ok method p e = ground (arith, e)

validate_err :
    {J : Type 0} (method : Text) (p : Parsed J) {e : RpcError}
    → p.error ≡ some e
    → validate_rpc_response method p ≡ err (wrapped (described e.message) e.code method)
unfolding validate_rpc_response
validate_err method p e = ground (arith, e)

validated_iff :
    {J : Type 0} (method : Text) (q p : Parsed J)
    → (validate_rpc_response method q ≡ ok p) ↔ ((q ≡ p) × (p.error ≡ none))
validated_iff {J} method q p = elim (Option-cases q.error) [
  | inl absent ↦
      let returned = validate_ok method q absent in
      (
        λ h. let same : q ≡ p = cc in (same, subst (λ (x : Parsed J). x.error ≡ none) same absent),
        λ h. let same : q ≡ p = h.0 in cc,
      )
  | inr (e, there) ↦
      let threw = validate_err method q there in
      (
        λ h. cc,
        λ h.
            let clash : q.error ≡ none = subst (λ (x : Parsed J). x.error ≡ none) (sym h.0) h.1 in
            cc,
      )
]

-- A JSON request to which the HTTP client gives a reply returns an object exactly when the status is
-- from 200 to 299, the body starts with a brace and parses to that object, and it has no error.
pub send_json_request-ok_iff :
    {J : Type 0} (parse : Text → Option (Parsed J)) (method : Text) (r : HttpResponse)
    (p : Parsed J)
    → (send_json_request parse method (ok r) ≡ ok p) ↔ (
        (200 ≤ r.status_code)
        × (r.status_code ≤ 299)
        × (starts_with_brace r.body ≡ true)
        × (parse r.body ≡ some p)
        × (p.error ≡ none))
unfolding send_json_request
send_json_request-ok_iff parse method r p = elim (Bool-cases (is_success r.status_code)) [
  | inr failed ↦ rw (failed, validate_http_response) (ground arith)
  | inl success ↦ elim (Bool-cases (starts_with_brace r.body)) [
    | inr no_object ↦ rw (success, validate_http_response, deserialize, no_object) (ground arith)
    | inl brace ↦ elim (Option-cases (parse r.body)) [
      | inl unparsed ↦
          rw (success, validate_http_response, deserialize, brace, unparsed) (ground arith)
      | inr (q, parsed) ↦
          rw (success, validate_http_response, deserialize, brace, parsed)
            (ground (arith, validated_iff method q p))
    ]
  ]
]

-- A reply that parses to an object with an error is reported with the method, the code of the
-- error and its message, even an empty one.
pub send_json_request-reports :
    {J : Type 0} (parse : Text → Option (Parsed J)) (method : Text) (r : HttpResponse)
    (p : Parsed J) (e : RpcError)
    → is_success r.status_code ≡ true
    → starts_with_brace r.body ≡ true
    → parse r.body ≡ some p
    → p.error ≡ some e
    → send_json_request parse method (ok r)
      ≡ err (record { description = described e.message; code = e.code; rpc_method = some method })
unfolding send_json_request
send_json_request-reports parse method r p e success brace parsed error =
    rw (success, validate_http_response, deserialize, brace, parsed, validate_rpc_response, error)
      refl
