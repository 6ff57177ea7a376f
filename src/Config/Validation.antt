-- ===== src/Config/Validation.antt =====
-- The validation of src/config.rs. A check gives the errors that it pushes, in their order; the
-- warnings are log lines and change nothing.
use Prim.Native.String.{◌++◌ as ◌+++◌}
use h3llo.Base.{
  ℕ, ltb, leb, ◌==◌, List, [], ◌∷◌, ◌++◌, Option, none, some, Bool, true, false, ◌&&◌, String,
  str_eq, if◌then◌else◌, Result, ok, err, any,
}
use h3llo.Base.Text.{trim, byte_len}
use h3llo.Config.{Config, LocalH3, Tuning, Peer, PeerTransport}

-- The two conflicts, in place of their texts.
pub data Conflict : Type 0 where
  keepalive_not_below_idle : ℕ → ℕ → Conflict
  backoff_min_above_max : ℕ → ℕ → Conflict

pub data ValidationError : Type 0 where
  field_must_be_positive : String → ValidationError
  field_conflict : Conflict → ValidationError
  field_empty : (context field : String) → ValidationError
  field_has_whitespace : (context field : String) → ValidationError
  duplicate_value : (context field value : String) → ValidationError
  peer_token_too_short : String → ValidationError
  invalid_cc_algorithm : String → ValidationError

abbrev pub Errors : Type 0
Errors = List ValidationError

abbrev pub is_blank : String → Bool
is_blank s = str_eq (trim s) ""

abbrev pub check_not_empty : Bool → String → String → Errors
check_not_empty is_empty context field = if is_empty then field_empty context field ∷ [] else []

-- `seen.insert(value)`, and an error if the value was there.
abbrev pub seen_or_push : {A : Type 0} → Bool → List A → A → ValidationError → List A × Errors
seen_or_push true seen value e = (seen, e ∷ [])
seen_or_push false seen value e = (value ∷ seen, [])

-- The set of the values seen, with this one, and the errors.
abbrev pub check_unique :
    {A : Type 0} → (A → A → Bool) → (A → String) → List A → A → String → String → List A × Errors
check_unique same to_string seen value context field =
    seen_or_push (any (λ other. same other value) seen) seen value
      (duplicate_value context field (to_string value))

abbrev pub check_trimmed : String → String → String → Bool → Errors
check_trimmed value context field check_empty =
    if check_empty && is_blank value
    then field_empty context field ∷ []
    else if str_eq value (trim value)
    then []
    else field_has_whitespace context field ∷ []

-- `if let Some(value) = ..` around a check.
abbrev pub check_some : (String → Errors) → Option String → Errors
check_some check none = []
check_some check (some value) = check value

abbrev pub check_h3_token : String → String → String → Errors
check_h3_token ctx id token =
    if ltb (byte_len token) 12
    then peer_token_too_short id ∷ []
    else check_trimmed token ctx "h3.token" false

-- The tokens seen, with that of this peer, and the errors.
abbrev pub check_transport : String → String → List String → PeerTransport → List String × Errors
check_transport ctx id seen (PeerTransport.bare b) = (seen, [])
check_transport ctx id seen (PeerTransport.h3 h) =
    let (seen', duplicate) = check_unique str_eq (λ s. s) seen h.token ctx "h3.token" in
    (
      seen',
      check_h3_token ctx id h.token
          ++ (duplicate
              ++ (check_some (λ sni. check_trimmed sni ctx "h3.sni" true) h.sni
                  ++ check_some (λ bindif. check_trimmed bindif ctx "h3.bindif" false) h.bindif)),
    )

abbrev pub is_nil : {A : Type 0} → List A → Bool
is_nil [] = true
is_nil (x ∷ xs) = false

abbrev pub peer_context : String → String
peer_context id = "peer '" +++ (id +++ "'")

abbrev pub result_of : Errors → Result (Unit {0}) Errors
result_of [] = ok tt
result_of (e ∷ errors) = err (e ∷ errors)

module _ {Net : Type 0} (same_net : Net → Net → Bool) (net_to_string : Net → String) where
  -- The loop over `allowed_ips`.
  unfoldable pub check_allowed : String → List Net → List Net → Errors
  check_allowed ctx seen [] = []
  check_allowed ctx seen (net ∷ nets) =
      let (seen', duplicate) = check_unique same_net net_to_string seen net ctx "tun.allowed_ips" in
      duplicate ++ check_allowed ctx seen' nets

  -- The loop over the peers.
  unfoldable pub check_peers : List String → List String → List (Peer Net) → Errors
  check_peers ids tokens [] = []
  check_peers ids tokens (peer ∷ peers) =
      let ctx = peer_context peer.id in
      let (ids', duplicate) = check_unique str_eq (λ s. s) ids peer.id ctx "id" in
      let (tokens', transport) = check_transport ctx peer.id tokens peer.transport in
      check_trimmed peer.id ctx "id" true
      ++ (duplicate
          ++ (transport
              ++ (check_not_empty (is_nil peer.tun.allowed_ips) ctx "tun.allowed_ips"
                  ++ (check_allowed ctx [] peer.tun.allowed_ips
                      ++ check_peers ids' tokens' peers))))

  unfoldable pub validate_peers : List (Peer Net) → Result (Unit {0}) Errors
  validate_peers peers = result_of (check_peers [] [] peers)

abbrev pub check_positive : ℕ → String → Errors
check_positive n field = if n == 0 then field_must_be_positive field ∷ [] else []

-- The loop over `duration_checks`.
abbrev pub check_durations : List (String × ℕ) → Errors
check_durations [] = []
check_durations ((field, dur) ∷ checks) = check_positive dur field ++ check_durations checks

abbrev pub duration_checks : Tuning → List (String × ℕ)
duration_checks t =
    ("tuning.reconcile_interval", t.reconcile_interval)
    ∷ ("tuning.reconnect_backoff_min", t.reconnect_backoff_min)
    ∷ ("tuning.reconnect_backoff_max", t.reconnect_backoff_max)
    ∷ ("tuning.metrics_push_interval", t.io.metrics_push_interval)
    ∷ ("tuning.metrics_log_interval", t.metrics_log_interval)
    ∷ ("tuning.dns_query_timeout", t.dns.dns_query_timeout)
    ∷ ("tuning.dns_refresh_interval", t.dns.dns_refresh_interval)
    ∷ ("tuning.dns_query_interval", t.dns.dns_query_interval)
    ∷ ("tuning.h3_handshake_timeout", t.h3.h3_handshake_timeout)
    ∷ ("tuning.h3_max_idle_timeout", t.h3.h3_max_idle_timeout)
    ∷ ("tuning.h3_keepalive_interval", t.h3.h3_keepalive_interval)
    ∷ []

abbrev pub cc_algorithms : List String
cc_algorithms = "reno" ∷ "cubic" ∷ "bbr" ∷ "bbr2" ∷ "none" ∷ []

-- What is pushed for the tuning, up to the checks of the peers.
unfoldable pub check_tuning : Tuning → Errors
check_tuning t =
    check_positive t.io.packet_queue_depth "tuning.packet_queue_depth"
    ++ (check_durations (duration_checks t)
        ++ ((if leb t.h3.h3_max_idle_timeout t.h3.h3_keepalive_interval
              then field_conflict
                  (keepalive_not_below_idle t.h3.h3_keepalive_interval t.h3.h3_max_idle_timeout)
                ∷ []
              else [])
            ++ ((if any (λ name. str_eq name t.h3.h3_cc_algorithm) cc_algorithms
                  then []
                  else invalid_cc_algorithm t.h3.h3_cc_algorithm ∷ [])
                ++ (if ltb t.reconnect_backoff_max t.reconnect_backoff_min
                    then field_conflict
                        (backoff_min_above_max t.reconnect_backoff_min t.reconnect_backoff_max)
                      ∷ []
                    else []))))

abbrev pub check_local_h3 : Option LocalH3 → Errors
check_local_h3 none = []
check_local_h3 (some h) =
    check_trimmed h.cert "local.h3" "cert" true ++ check_trimmed h.key "local.h3" "key" true

-- The errors of a result, for `extend`.
abbrev pub errors_of : Result (Unit {0}) Errors → Errors
errors_of (ok done) = []
errors_of (err errors) = errors

-- `Config::validate`.
unfoldable pub validate :
    {Net : Type 0} → (Net → Net → Bool) → (Net → String) → Config Net → Result (Unit {0}) Errors
validate same_net net_to_string c = result_of (
    check_tuning c.tuning
    ++ (check_local_h3 c.locals.h3
        ++ (check_not_empty (is_nil c.locals.tun.addrs) "local.tun" "addrs"
            ++ errors_of (validate_peers same_net net_to_string c.peers))))
