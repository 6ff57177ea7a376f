-- ===== src/Config/Uri.antt =====
-- Endpoints as URIs (src/config.rs). The parser of the crate url is a parameter, `parse`; it drops
-- the port that is the default of the scheme.
use Prim.Native.String.{◌++◌}
use Prim.Native.Char.{Char, code}
use h3llo.Base.{
  ℕ, ◌≡◌, ◌==◌, Option, none, some, Bool, true, false, not, ◌&&◌, ◌||◌, String, str_eq,
  if◌then◌else◌, Result, ok, err, ◌>>=◌, refl, sym, ap, ◌∙◌, eq_iff, ==_iff, Bool-cases, inl, inr,
}
use h3llo.Net.{IpAddr, SocketAddr}
use h3llo.Config.{UdpEndpoint, H3Endpoint, ApiEndpoint}

-- What is asked of `url::Url`.
pub record Url : Type 0 where
  pub scheme : String
  pub username : String
  pub password : Option String
  pub host_str : Option String
  pub port : Option ℕ
  pub path : String
  pub query : Option String
  pub fragment : Option String

-- The errors, in place of their texts.
pub data UriError : Type 0 where
  not_a_url : String → UriError
  scheme_must_be : String → UriError
  userinfo_not_supported : UriError
  host_required : UriError
  query_and_fragment_not_supported : UriError
  port_required : UriError
  path_must_be_empty : UriError
  host_must_be_ip_literal : UriError

abbrev pub is_some : {A : Type 0} → Option A → Bool
is_some none = false
is_some (some a) = true

abbrev pub unwrap_or : {A : Type 0} → Option A → A → A
unwrap_or none d = d
unwrap_or (some a) d = a

abbrev pub ok_or : {A : Type 0} → Option A → UriError → Result A UriError
ok_or none e = err e
ok_or (some a) e = ok a

abbrev pub text_is_empty : String → Bool
text_is_empty String.[] = true
text_is_empty (String.◌∷◌ c s) = false

-- `host_str().filter(|h| !h.text_is_empty())`.
abbrev pub non_empty : Option String → Option String
non_empty none = none
non_empty (some host) = if text_is_empty host then none else some host

abbrev pub guard : Bool → UriError → Result (Unit {0}) UriError
guard true e = ok tt
guard false e = err e

-- `strip_prefix('[').and_then(|s| s.strip_suffix(']')).unwrap_or(&host)`.
abbrev pub strip_open : String → Option String
strip_open String.[] = none
strip_open (String.◌∷◌ c s) = if code c == 91 then some s else none

abbrev pub push_char : Char → Option String → Option String
push_char c none = none
push_char c (some s) = some (String.◌∷◌ c s)

abbrev pub strip_close : String → Option String
strip_close String.[] = none
strip_close (String.◌∷◌ c String.[]) = if code c == 93 then some String.[] else none
strip_close (String.◌∷◌ c (String.◌∷◌ d s)) = push_char c (strip_close (String.◌∷◌ d s))

abbrev pub and_then : {A B : Type 0} → Option A → (A → Option B) → Option B
and_then none f = none
and_then (some a) f = f a

abbrev pub strip_brackets : String → String
strip_brackets host = unwrap_or (and_then (strip_open host) strip_close) host

module _ (parse : String → Result Url UriError) where
  -- Host, port and path.
  unfoldable pub parse_endpoint_uri : String → String → Result (String × Option ℕ × String) UriError
  parse_endpoint_uri raw expected_scheme = parse raw >>= λ url.
      guard (str_eq url.scheme expected_scheme) (scheme_must_be expected_scheme) >>= λ _.
      guard (text_is_empty url.username && not (is_some url.password)) userinfo_not_supported
      >>= λ _. ok_or (non_empty url.host_str) host_required >>= λ host.
          guard (not (is_some url.query || is_some url.fragment)) query_and_fragment_not_supported
          >>= λ _. ok (host, url.port, url.path)

  unfoldable pub parse_h3_uri : String → Result H3Endpoint UriError
  parse_h3_uri raw = parse_endpoint_uri raw "https" >>= λ (host, port, path).
      ok (record { host = host; port = unwrap_or port 443; path = path })

  unfoldable pub parse_api_uri : String → Result ApiEndpoint UriError
  parse_api_uri raw = parse_endpoint_uri raw "http" >>= λ (host, port, path).
      ok (record { host = host; port = unwrap_or port 9090; path = path })

  unfoldable pub parse_udp_uri : String → Result UdpEndpoint UriError
  parse_udp_uri raw = parse_endpoint_uri raw "udp" >>= λ (host, port, path).
      ok_or port port_required >>= λ number.
      guard (str_eq path "/" || text_is_empty path) path_must_be_empty >>= λ _.
      ok (record { host = host; port = number })

  -- `parse_ip` stands for the parser of addresses of the standard library.
  unfoldable pub parse_dns_server_uri :
      (String → Option IpAddr) → String → Result SocketAddr UriError
  parse_dns_server_uri parse_ip raw = parse_endpoint_uri raw "udp" >>= λ (host, port, path).
      ok_or port port_required >>= λ number.
      guard (str_eq path "/" || text_is_empty path) path_must_be_empty >>= λ _.
      ok_or (parse_ip (strip_brackets host)) host_must_be_ip_literal >>= λ ip.
      ok (record { ip = ip; port = number })

-- How the endpoints are written; `decimal` stands for the standard formatting of a number.
module _ (decimal : ℕ → String) where
  unfoldable pub format_udp_uri : UdpEndpoint → String
  format_udp_uri ep = "udp://" ++ (ep.host ++ (":" ++ decimal ep.port))

  unfoldable pub format_h3_uri : H3Endpoint → String
  format_h3_uri ep =
      if ep.port == 443
      then "https://" ++ (ep.host ++ ep.path)
      else "https://" ++ (ep.host ++ (":" ++ (decimal ep.port ++ ep.path)))

  unfoldable pub format_api_uri : ApiEndpoint → String
  format_api_uri ep = "http://" ++ (ep.host ++ (":" ++ (decimal ep.port ++ ep.path)))

-- What the parser of url answers for an address without user, query and fragment.
abbrev pub plain_url : String → String → Option ℕ → String → Url
plain_url scheme host port path = record {
  scheme = scheme;
  username = "";
  password = none;
  host_str = some host;
  port = port;
  path = path;
  query = none;
  fragment = none;
}

-- The port as `Url::port` gives it: none if it is the default of the scheme.
abbrev pub unless_default : ℕ → ℕ → Option ℕ
unless_default default_port port = if port == default_port then none else some port

endpoint_of_plain :
    (parse : String → Result Url UriError) (raw scheme host path : String) (port : Option ℕ)
    → parse raw ≡ ok (plain_url scheme host port path)
    → text_is_empty host ≡ false
    → parse_endpoint_uri parse raw scheme ≡ ok (host, port, path)
unfolding parse_endpoint_uri
endpoint_of_plain parse raw scheme host path port known full =
    rw known (rw ((eq_iff scheme scheme).1 refl) (rw full refl))

unwrap_or-unless_default :
    (d k p : ℕ) → unwrap_or (unless_default d p) k ≡ (if p == d then k else p)
unwrap_or-unless_default d k p = elim (Bool-cases (p == d)) [
  | inl t ↦ rw t refl
  | inr f ↦ rw f refl
]

restored : (d p : ℕ) → (if p == d then d else p) ≡ p
restored d p = elim (Bool-cases (p == d)) [
  | inl t ↦ rw t (sym ((==_iff p d).0 t))
  | inr f ↦ rw f refl
]

-- An HTTP/3 endpoint with a host that is written as a URI reads back as it was, if the parser of
-- URLs takes the URI apart into host, port and path, without the port 443.
pub parse_h3_uri-format_h3_uri :
    (parse : String → Result Url UriError) (decimal : ℕ → String) (ep : H3Endpoint)
    → parse (format_h3_uri decimal ep)
      ≡ ok (plain_url "https" ep.host (unless_default 443 ep.port) ep.path)
    → text_is_empty ep.host ≡ false
    → parse_h3_uri parse (format_h3_uri decimal ep) ≡ ok ep
unfolding parse_h3_uri
parse_h3_uri-format_h3_uri parse decimal ep known full =
    rw
      (endpoint_of_plain parse (format_h3_uri decimal ep) "https" ep.host ep.path
        (unless_default 443 ep.port) known full)
      (ap (λ n. ok (record ep { port = n }))
        (unwrap_or-unless_default 443 443 ep.port ∙ restored 443 ep.port))

-- An endpoint of the management API with a host that is written as a URI reads back with the port
-- 9090 in place of the port 80, and otherwise as it was, if the parser of URLs takes the URI apart
-- into host, port and path, without the port 80.
pub parse_api_uri-format_api_uri :
    (parse : String → Result Url UriError) (decimal : ℕ → String) (ep : ApiEndpoint)
    → parse (format_api_uri decimal ep)
      ≡ ok (plain_url "http" ep.host (unless_default 80 ep.port) ep.path)
    → text_is_empty ep.host ≡ false
    → parse_api_uri parse (format_api_uri decimal ep)
      ≡ ok (record ep { port = if ep.port == 80 then 9090 else ep.port })
unfolding parse_api_uri
parse_api_uri-format_api_uri parse decimal ep known full =
    rw
      (endpoint_of_plain parse (format_api_uri decimal ep) "http" ep.host ep.path
        (unless_default 80 ep.port) known full)
      (ap (λ n. ok (record ep { port = n })) (unwrap_or-unless_default 80 9090 ep.port))

-- A bare UDP endpoint reads back as it was; `udp` has no default port, and the path is empty.
pub parse_udp_uri-format_udp_uri :
    (parse : String → Result Url UriError) (decimal : ℕ → String) (ep : UdpEndpoint)
    → parse (format_udp_uri decimal ep) ≡ ok (plain_url "udp" ep.host (some ep.port) "")
    → text_is_empty ep.host ≡ false
    → parse_udp_uri parse (format_udp_uri decimal ep) ≡ ok ep
unfolding parse_udp_uri
parse_udp_uri-format_udp_uri parse decimal ep known full =
    rw
      (endpoint_of_plain parse (format_udp_uri decimal ep) "udp" ep.host "" (some ep.port) known
        full)
      refl
