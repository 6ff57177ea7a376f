-- ===== src/Auth/Bearer.antt =====
-- A token that is presented is accepted for the peer that it belongs to.
use Prim.Native.Char.{code}
use Prim.Native.String.{◌++◌}
use Prim.Native.String.append
use h3llo.Base.{
  List, [], ◌∷◌, none, some, Bool, String, ==_iff, str_eq, if◌then◌else◌, Result, ok, err, ◌≡◌, ◌≢◌,
  refl, ap, ◌∙◌,
}
use h3llo.Auth.{
  AuthError, invalid_token, bearer_auth_header, strip_prefix, find_peer, check_token,
  check_stripped, validate_connect_auth,
}

pub strip_prefix-append : (p t : String) → strip_prefix p (p ++ t) ≡ some t
strip_prefix-append String.[] t = ap some (append.nil t)
strip_prefix-append (String.◌∷◌ c p) t =
    ap (strip_prefix (String.◌∷◌ c p)) (append.cons c p t)
    ∙ ap (λ b. if b then strip_prefix p (p ++ t) else none) ((==_iff (code c) (code c)).1 refl)
    ∙ strip_prefix-append p t

-- The first peer with the token.
abbrev pub peer_of : String → List (String × String) → Result String AuthError
peer_of token [] = err invalid_token
peer_of token ((peer_id, peer_token) ∷ peers) =
    let rest = peer_of token peers in if str_eq peer_token token then ok peer_id else rest

module _ {Key Digest : Type 0} (mac : String → Key → Digest)
    (verify : String → Key → Digest → Bool) where
  find_peer_lem :
      (key : Key) (token : String)
      → ((other : String) → verify other key (mac token key) ≡ str_eq other token)
      → (peers : List (String × String))
      → find_peer mac verify key (mac token key) peers ≡ peer_of token peers
  unfolding find_peer
  find_peer_lem key token exact [] = refl
  find_peer_lem key token exact ((peer_id, peer_token) ∷ peers) =
      λ i. if exact peer_token i then ok peer_id else find_peer_lem key token exact peers i

  check_token_lem :
      (key : Key) (token : String)
      → ((other : String) → verify other key (mac token key) ≡ str_eq other token)
      → token ≢ String.[]
      → (peers : List (String × String))
      → check_token mac verify key token peers ≡ peer_of token peers
  check_token_lem key String.[] exact full peers = absurd (full refl)
  check_token_lem key (String.◌∷◌ c s) exact full peers =
      find_peer_lem key (String.◌∷◌ c s) exact peers

  -- If the MAC under the key tells the presented token from every other, then the header made for a
  -- token that is not empty is accepted for the first peer that has this token, and refused as
  -- invalid if no peer has it.
  pub validate_connect_auth-bearer_auth_header :
      (key : Key) (token : String)
      → ((other : String) → verify other key (mac token key) ≡ str_eq other token)
      → token ≢ String.[]
      → (peers : List (String × String))
      → validate_connect_auth mac verify key (some (bearer_auth_header token)) peers
        ≡ peer_of token peers
  unfolding validate_connect_auth bearer_auth_header
  validate_connect_auth-bearer_auth_header key token exact full peers =
      ap (λ o. check_stripped mac verify key o peers) (strip_prefix-append "Bearer " token)
      ∙ check_token_lem key token exact full peers
