-- ===== src/Handshake.antt =====
-- The CONNECT-IP request and the answers to it: the headers that the client sends (src/h3dialer.rs) and
-- the tests of the server (src/h3listener.rs). A byte string is a text of one character for each byte.
pub mod Headers
pub mod Server
pub mod Client
use Prim.Native.Char.{Char, code}
use h3llo.Base.{
  ℕ, ◌+◌, ◌≤◌, leb, List, [], ◌∷◌, Option, none, some, Bool, true, false, ◌&&◌, ◌||◌, ◌==◌, str_eq,
  String, if◌then◌else◌, Result, ok, err,
}
use h3llo.Config.{PeerH3}
use h3llo.Auth.{AuthError, validate_connect_auth}
use h3llo.Session.{
  HeaderAction, accept, ignore, ConnectFailure, rejected, closed, missing_status, response_unsent,
}

pub record Header : Type 0 where
  pub name : String
  pub value : String

-- `u8::to_ascii_lowercase`, on a code.
abbrev pub lowercase : ℕ → ℕ
lowercase c = if leb 65 c && leb c 90 then c + 32 else c

unfoldable pub eq_ignore_ascii_case : String → String → Bool
eq_ignore_ascii_case String.[] String.[] = true
eq_ignore_ascii_case (String.◌∷◌ c s) (String.◌∷◌ d t) =
    (lowercase (code c) == lowercase (code d)) && eq_ignore_ascii_case s t
eq_ignore_ascii_case _ _ = false

-- The value of the first header whose name passes the test.
unfoldable pub find_value : (String → Bool) → List Header → Option String
find_value is_name [] = none
find_value is_name (header ∷ headers) =
    let rest = find_value is_name headers in if is_name header.name then some header.value else rest

abbrev pub is_value : Option String → String → Bool
is_value none expected = false
is_value (some value) expected = str_eq value expected

-- The reasons for which a request is not a CONNECT-IP request, in place of their texts.
pub data Invalid : Type 0 where
  invalid_method : Invalid
  invalid_protocol : Invalid
  invalid_capsule_protocol : Invalid

abbrev pub method_of : List Header → Option String
method_of headers = find_value (λ name. str_eq name ":method") headers

abbrev pub protocol_of : List Header → Option String
protocol_of headers = find_value (λ name. str_eq name ":protocol") headers

abbrev pub capsule_of : List Header → Option String
capsule_of headers = find_value (λ name. eq_ignore_ascii_case name "capsule-protocol") headers

abbrev pub authorization_of : List Header → Option String
authorization_of headers = find_value (λ name. eq_ignore_ascii_case name "authorization") headers

unfoldable pub validate_server_connect_headers : List Header → Option Invalid
validate_server_connect_headers headers =
    if is_value (method_of headers) "CONNECT"
    then (if is_value (protocol_of headers) "connect-ip"
        then (if is_value (capsule_of headers) "?1" then none else some invalid_capsule_protocol)
        else some invalid_protocol)
    else some invalid_method

-- What the server answers to a request.
pub data ConnectResponse : Type 0 where
  bad_request : ConnectResponse
  unauthorized : ConnectResponse
  success : ConnectResponse

-- `send_request`, without the schema and the stream.
unfoldable pub connect_headers : String → String → String → List Header
connect_headers authority connect_path auth_header =
    record { name = ":method"; value = "CONNECT" }
    ∷ record { name = ":protocol"; value = "connect-ip" }
    ∷ record { name = ":scheme"; value = "https" }
    ∷ record { name = ":authority"; value = authority }
    ∷ record { name = ":path"; value = connect_path }
    ∷ record { name = "capsule-protocol"; value = "?1" }
    ∷ record { name = "authorization"; value = auth_header }
    ∷ []

-- The headers of a response.
unfoldable pub response_headers : ConnectResponse → List Header
response_headers bad_request = record { name = ":status"; value = "400" } ∷ []
response_headers unauthorized = record { name = ":status"; value = "401" } ∷ []
response_headers success =
    record { name = ":status"; value = "200" }
    ∷ record { name = "capsule-protocol"; value = "?1" }
    ∷ []

abbrev pub status_of : List Header → Option String
status_of headers = find_value (λ name. str_eq name ":status") headers

-- A response, by its status.
abbrev pub by_status : ℕ → Option String → Result HeaderAction ConnectFailure
by_status stream_id none = err (closed missing_status)
by_status stream_id (some status) =
    if str_eq status "200" then ok (accept stream_id none) else err (rejected status)

abbrev pub is_stream : Option ℕ → ℕ → Bool
is_stream none stream_id = false
is_stream (some bound) stream_id = bound == stream_id

-- What the client makes of headers: those of its own stream are the response.
unfoldable pub client_handler : Option ℕ → ℕ → List Header → Result HeaderAction ConnectFailure
client_handler connect_sid stream_id headers =
    if is_stream connect_sid stream_id then by_status stream_id (status_of headers) else ok ignore

-- The tokens are those of `peer_tokens`; `mac` and `verify` belong to the crate hmac_sha256.
module _ {Key Digest : Type 0} (mac : String → Key → Digest)
    (verify : String → Key → Digest → Bool) where
  unfoldable pub validate_server_auth :
      Key → List Header → List (String × String) → Result String AuthError
  validate_server_auth key headers tokens =
      validate_connect_auth mac verify key (authorization_of headers) tokens

  -- A valid request; `sends` says whether the answer can be sent.
  abbrev pub answer_success :
      ℕ → String → Bool → ConnectResponse × Result HeaderAction ConnectFailure
  answer_success stream_id peer_id true = (success, ok (accept stream_id (some peer_id)))
  answer_success stream_id peer_id false = (success, err (closed response_unsent))

  abbrev pub answer_auth :
      ℕ → Result String AuthError → Bool → ConnectResponse × Result HeaderAction ConnectFailure
  answer_auth stream_id (err e) sends = (unauthorized, ok ignore)
  answer_auth stream_id (ok peer_id) sends = answer_success stream_id peer_id sends

  abbrev pub answer_request :
      ℕ
      → Option Invalid
      → Result String AuthError
      → Bool
      → ConnectResponse × Result HeaderAction ConnectFailure
  answer_request stream_id (some reason) auth sends = (bad_request, ok ignore)
  answer_request stream_id none auth sends = answer_auth stream_id auth sends

  -- The answer, and what the session makes of the request.
  unfoldable pub server_handler :
      Key
      → List (String × String)
      → Bool
      → ℕ
      → List Header
      → ConnectResponse × Result HeaderAction ConnectFailure
  server_handler key tokens sends stream_id headers =
      answer_request stream_id (validate_server_connect_headers headers)
        (validate_server_auth key headers tokens) sends
