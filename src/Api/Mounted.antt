-- ===== src/Api/Mounted.antt =====
-- The API below a configured path.
use Prim.Native.String.{◌++◌}
use Prim.Native.String.append
use h3llo.Base.{some, true, String, Result, ◌≡◌, refl, ap, ◌∙◌, arith}
use h3llo.Peers.{trim_end}
use h3llo.Auth.Bearer.{strip_prefix-append}
use h3llo.Api.{
  Method, Backend, starts_with_slash, rest_of, below, relative_path, answer_relative,
  handle_request,
}

rest_of-slash : (rest : String) → starts_with_slash rest ≡ true → rest_of (some rest) ≡ some rest
rest_of-slash String.[] h = ground arith
rest_of-slash (String.◌∷◌ c s) h = rw h refl

below-append :
    (base rest : String) → starts_with_slash rest ≡ true → below base (base ++ rest) ≡ some rest
below-append String.[] rest h = ap some (append.nil rest)
below-append (String.◌∷◌ c base) rest h =
    ap rest_of (strip_prefix-append (String.◌∷◌ c base) rest) ∙ rest_of-slash rest h

module _ {Net Snapshot : Type 0} (backend : Backend Net Snapshot) where
  -- The API below a path answers as the API at the root does: a request for a path that begins with `/`
  -- gets the same answer when the configured path, without the slashes at its end, is put before
  -- it.
  pub handle_request-mounted :
      (api_path : String) (method : Method) (path : String) (body : Result String String)
      → starts_with_slash path ≡ true
      → handle_request backend api_path method (trim_end 47 api_path ++ path) body
        ≡ handle_request backend "/" method path body
  unfolding handle_request relative_path trim_end
  handle_request-mounted api_path method path body h =
      ap (λ o. answer_relative backend method o body) (below-append (trim_end 47 api_path) path h)
