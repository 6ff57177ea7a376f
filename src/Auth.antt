-- ===== src/Auth.antt =====
-- Bearer tokens of CONNECT-IP requests (src/auth.rs). The MAC is that of the crate hmac_sha256, a
-- parameter; the random key is an argument.
pub mod Bearer
use Prim.Native.Char.{Char, code}
use Prim.Native.String.{◌++◌}
use h3llo.Base.{
  List, [], ◌∷◌, Option, none, some, Bool, String, ◌==◌, str_eq, if◌then◌else◌, Result, ok, err,
}

pub data AuthError : Type 0 where
  missing_header : AuthError
  not_bearer : AuthError
  empty_token : AuthError
  invalid_token : AuthError

unfoldable pub bearer_auth_header : String → String
bearer_auth_header token = "Bearer " ++ token

-- `str::strip_prefix`.
abbrev pub strip_prefix : String → String → Option String
strip_prefix String.[] s = some s
strip_prefix (String.◌∷◌ c p) String.[] = none
strip_prefix (String.◌∷◌ c p) (String.◌∷◌ d s) =
    let rest = strip_prefix p s in if code c == code d then rest else none

module _ {Key Digest : Type 0} (mac : String → Key → Digest)
    (verify : String → Key → Digest → Bool) where
  -- The loop over the peers' tokens.
  unfoldable pub find_peer : Key → Digest → List (String × String) → Result String AuthError
  find_peer key presented [] = err invalid_token
  find_peer key presented ((peer_id, peer_token) ∷ peers) =
      let rest = find_peer key presented peers in
      if verify peer_token key presented then ok peer_id else rest

  abbrev pub check_token : Key → String → List (String × String) → Result String AuthError
  check_token key String.[] peers = err empty_token
  check_token key (String.◌∷◌ c s) peers = find_peer key (mac (String.◌∷◌ c s) key) peers

  abbrev pub check_stripped : Key → Option String → List (String × String) → Result String AuthError
  check_stripped key none peers = err not_bearer
  check_stripped key (some token) peers = check_token key token peers

  unfoldable pub validate_connect_auth :
      Key → Option String → List (String × String) → Result String AuthError
  validate_connect_auth key none peers = err missing_header
  validate_connect_auth key (some header) peers =
      check_stripped key (strip_prefix "Bearer " header) peers
