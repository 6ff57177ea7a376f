-- ===== src/Handshake/Headers.antt =====
-- Which requests the server accepts, and that it accepts those of the client.
use h3llo.Base.{
  ℕ, List, Option, none, some, Bool, true, false, String, str_eq, eq_iff, ==_iff, if◌then◌else◌,
  Result, ok, err, ◌≡◌, ◌≢◌, ◌↔◌, refl, ap, ◌∙◌, arith,
}
use h3llo.Auth.{AuthError, bearer_auth_header, validate_connect_auth}
use h3llo.Auth.Bearer.{peer_of, validate_connect_auth-bearer_auth_header}
use h3llo.Session.{accept}
use h3llo.Handshake.{
  Header, find_value, eq_ignore_ascii_case, is_value, Invalid, invalid_method, invalid_protocol,
  invalid_capsule_protocol, method_of, protocol_of, capsule_of, authorization_of,
  validate_server_connect_headers, success, connect_headers, response_headers, client_handler,
  validate_server_auth, answer_request, server_handler,
}

is_value_iff :
    (o : Option String) (expected : String) → (is_value o expected ≡ true) ↔ (o ≡ some expected)
is_value_iff none expected = (λ h. ground arith, λ h. cc)
is_value_iff (some value) expected =
    (λ h. ap some ((eq_iff value expected).0 h), λ h. (eq_iff value expected).1 cc)

-- A CONNECT-IP request, as RFC 9484 describes it.
abbrev pub IsConnectIp : List Header → Type 0
IsConnectIp headers =
    (method_of headers ≡ some "CONNECT")
    × (protocol_of headers ≡ some "connect-ip")
    × (capsule_of headers ≡ some "?1")

abbrev verdict : Bool → Bool → Bool → Option Invalid
verdict m p c =
    if m
    then (if p then (if c then none else some invalid_capsule_protocol) else some invalid_protocol)
    else some invalid_method

verdict_iff : (m p c : Bool) → (verdict m p c ≡ none) ↔ ((m ≡ true) × (p ≡ true) × (c ≡ true))
verdict_iff true true true = (λ _. (refl, refl, refl), λ _. refl)
verdict_iff false p c = (λ h. cc, λ h. ground arith)
verdict_iff true false c = (λ h. cc, λ h. ground arith)
verdict_iff true true false = (λ h. cc, λ h. ground arith)

pub validate_server_connect_headers_iff :
    (headers : List Header) → (validate_server_connect_headers headers ≡ none) ↔ IsConnectIp headers
unfolding validate_server_connect_headers
validate_server_connect_headers_iff headers =
    let m = is_value_iff (method_of headers) "CONNECT" in
    let p = is_value_iff (protocol_of headers) "connect-ip" in
    let c = is_value_iff (capsule_of headers) "?1" in
    let v =
      verdict_iff (is_value (method_of headers) "CONNECT")
        (is_value (protocol_of headers) "connect-ip") (is_value (capsule_of headers) "?1") in
    (λ h. let (a, b, d) = v.0 h in (m.0 a, p.0 b, c.0 d), λ (a, b, d). v.1 (m.1 a, p.1 b, c.1 d))

client_handler-success :
    (stream_id : ℕ)
    → client_handler (some stream_id) stream_id (response_headers success)
      ≡ ok (accept stream_id none)
unfolding client_handler find_value response_headers
client_handler-success stream_id = rw ((==_iff stream_id stream_id).1 refl) refl

module _ {Key Digest : Type 0} (mac : String → Key → Digest)
    (verify : String → Key → Digest → Bool) where
  answer_request_iff :
      (stream_id : ℕ) (invalid : Option Invalid) (auth : Result String AuthError) (sends : Bool)
      (peer_id : String)
      → ((answer_request mac verify stream_id invalid auth sends).1
          ≡ ok (accept stream_id (some peer_id)))
        ↔ ((invalid ≡ none) × (auth ≡ ok peer_id) × (sends ≡ true))
  answer_request_iff stream_id (some reason) auth sends peer_id = (λ h. cc, λ h. cc)
  answer_request_iff stream_id none (err e) sends peer_id = (λ h. cc, λ h. cc)
  answer_request_iff stream_id none (ok other) false peer_id = (λ h. cc, λ h. ground arith)
  answer_request_iff stream_id none (ok other) true peer_id = (λ h. (refl, cc, refl), λ h. cc)

  -- The server accepts a request for a peer exactly if it is a CONNECT-IP request, its credentials
  -- are those of the peer, and the answer can be sent.
  pub server_handler_iff :
      (key : Key) (tokens : List (String × String)) (sends : Bool) (stream_id : ℕ)
      (headers : List Header) (peer_id : String)
      → ((server_handler mac verify key tokens sends stream_id headers).1
          ≡ ok (accept stream_id (some peer_id)))
        ↔ (IsConnectIp headers
            × (validate_server_auth mac verify key headers tokens ≡ ok peer_id)
            × (sends ≡ true))
  unfolding server_handler
  server_handler_iff key tokens sends stream_id headers peer_id =
      let v = validate_server_connect_headers_iff headers in
      let a =
        answer_request_iff stream_id (validate_server_connect_headers headers)
          (validate_server_auth mac verify key headers tokens) sends peer_id in
      (λ h. let (x, y, z) = a.0 h in (v.0 x, y, z), λ (x, y, z). a.1 (v.1 x, y, z))

  connect_headers-IsConnectIp :
      (authority connect_path auth_header : String)
      → IsConnectIp (connect_headers authority connect_path auth_header)
  unfolding connect_headers find_value eq_ignore_ascii_case
  connect_headers-IsConnectIp authority connect_path auth_header = (refl, refl, refl)

  connect_headers-authorization :
      (authority connect_path auth_header : String)
      → authorization_of (connect_headers authority connect_path auth_header) ≡ some auth_header
  unfolding connect_headers find_value eq_ignore_ascii_case
  connect_headers-authorization authority connect_path auth_header = refl

  -- If the MAC under the key tells the client's token from every other, the token is not empty and the
  -- answer can be sent, then the server accepts the request of the client for the first peer
  -- that has this token, and the client takes the answer as the acceptance of its own stream.
  pub server_handler-connect_headers :
      (key : Key) (token authority connect_path : String) (tokens : List (String × String))
      (stream_id : ℕ) (peer_id : String)
      → ((other : String) → verify other key (mac token key) ≡ str_eq other token)
      → token ≢ String.[]
      → peer_of token tokens ≡ ok peer_id
      → let request = connect_headers authority connect_path (bearer_auth_header token) in
        let answer = server_handler mac verify key tokens true stream_id request in
        (answer.1 ≡ ok (accept stream_id (some peer_id)))
        × (client_handler (some stream_id) stream_id (response_headers answer.0)
            ≡ ok (accept stream_id none))
  unfolding server_handler validate_server_auth client_handler
  server_handler-connect_headers key token authority connect_path tokens stream_id peer_id exact
        full known =
      let request = connect_headers authority connect_path (bearer_auth_header token) in
      let auth : validate_server_auth mac verify key request tokens ≡ ok peer_id =
        ap (λ o. validate_connect_auth mac verify key o tokens)
          (connect_headers-authorization authority connect_path (bearer_auth_header token))
        ∙ validate_connect_auth-bearer_auth_header mac verify key token exact full tokens
        ∙ known in
      let valid =
        (validate_server_connect_headers_iff request).1
          (connect_headers-IsConnectIp authority connect_path (bearer_auth_header token)) in
      let handled : server_handler mac verify key tokens true stream_id request
          ≡ (success, ok (accept stream_id (some peer_id))) =
        λ i. answer_request mac verify stream_id (valid i) (auth i) true in
      (
        ap (λ answer. answer.1) handled,
        ap (λ answer. client_handler (some stream_id) stream_id (response_headers answer.0)) handled
            ∙ client_handler-success stream_id,
      )
