-- ===== src/Api.antt =====
-- The management API (src/api.rs): which request reaches which handler, and what each answers. The
-- reading of bodies, YAML and the text of the metrics belong to crates: they are arguments, as
-- are the answers of the orchestrator.
pub mod Mounted
use Prim.Native.Char.{code}
use h3llo.Base.{
  ℕ, List, [], ◌∷◌, Option, none, some, Bool, true, false, ◌==◌, ◌||◌, String, str_eq,
  if◌then◌else◌, Result, ok, err, map,
}
use h3llo.Config.{Peer, Config}
use h3llo.Peers.{trim_end}
use h3llo.Auth.{strip_prefix}

pub data Method : Type 0 where
  method_get : Method
  method_post : Method
  method_delete : Method
  other_method : Method

pub data StatusCode : Type 0 where
  status_ok : StatusCode
  bad_request : StatusCode
  not_found : StatusCode
  internal_server_error : StatusCode

pub record Response : Type 0 where
  pub status : StatusCode
  pub content_type : Option String
  pub body : String

unfoldable pub response : StatusCode → String → Response
response status body = record { status = status; content_type = none; body = body }

abbrev pub typed_response : String → String → Response
typed_response content_type body = record {
  status = status_ok;
  content_type = some content_type;
  body = body;
}

-- Where a request goes.
pub data Handler : Type 0 where
  get_config post_config delete_config get_metrics nowhere : Handler

-- `/` is 47.
abbrev pub starts_with_slash : String → Bool
starts_with_slash String.[] = false
starts_with_slash (String.◌∷◌ c s) = code c == 47

abbrev pub rest_of : Option String → Option String
rest_of none = none
rest_of (some String.[]) = some "/"
rest_of (some (String.◌∷◌ c s)) = if code c == 47 then some (String.◌∷◌ c s) else none

abbrev pub below : String → String → Option String
below String.[] path = some path
below (String.◌∷◌ c base) path = rest_of (strip_prefix (String.◌∷◌ c base) path)

-- The path below the configured one, if it is below it.
unfoldable pub relative_path : String → String → Option String
relative_path api_path path = below (trim_end 47 api_path) path

abbrev pub is_config : String → Bool
is_config path = str_eq path "/config" || str_eq path "/config/"

abbrev pub is_metrics : String → Bool
is_metrics path = str_eq path "/metrics" || str_eq path "/metrics/"

unfoldable pub endpoint_of : Method → String → Handler
endpoint_of method_get path =
    if is_config path then get_config else if is_metrics path then get_metrics else nowhere
endpoint_of method_post path = if is_config path then post_config else nowhere
endpoint_of method_delete path = if is_config path then delete_config else nowhere
endpoint_of other_method path = nowhere

-- What becomes of a question to the orchestrator.
pub data Reply (T : Type 0) : Type 0 where
  replied : T → Reply T
  unavailable : Reply T
  reply_dropped : Reply T

unfoldable pub send_and_await : {T : Type 0} → Reply T → Result T Response
send_and_await (replied answer) = ok answer
send_and_await unavailable = err (response internal_server_error "orchestrator unavailable")
send_and_await reply_dropped = err (response internal_server_error "orchestrator dropped reply")

-- What is asked of serde_yaml, of prometheus-client and of the orchestrator.
pub record Backend (Net Snapshot : Type 0) : Type 0 where
  pub to_yaml : Config Net → Result String String
  pub read_peers : String → Result (List (Peer Net)) String
  pub read_ids : String → Result (List String) String
  pub encode : Snapshot → String
  pub ask_config : Reply (Config Net)
  pub ask_post : List (Peer Net) → Reply (Result (Config Net) String)
  pub ask_delete : List String → Reply (Result (Config Net) String)
  pub ask_metrics : Reply Snapshot

module _ {Net Snapshot : Type 0} (backend : Backend Net Snapshot) where
  unfoldable pub yaml_config_response : Config Net → Response
  unfolding response
  yaml_config_response config = elim (backend.to_yaml config) [
    | ok yaml ↦ typed_response "application/yaml" yaml
    | err e ↦ response internal_server_error e
  ]

  -- An answer of the orchestrator to a change.
  abbrev pub changed : Result (Result (Config Net) String) Response → Response
  changed (ok (ok config)) = yaml_config_response config
  changed (ok (err e)) = response bad_request e
  changed (err failure) = failure

  abbrev pub asked : Result (Config Net) Response → Response
  asked (ok config) = yaml_config_response config
  asked (err failure) = failure

  unfoldable pub handle_get_config : Response
  handle_get_config = asked (send_and_await backend.ask_config)

  abbrev pub post_peers : Result (List (Peer Net)) String → Response
  post_peers (ok peers) = changed (send_and_await (backend.ask_post peers))
  post_peers (err e) = response bad_request e

  -- The body, or the error with which its reading ends, a body of more than 1 MiB among them.
  unfoldable pub handle_post_config : Result String String → Response
  handle_post_config (ok body) = post_peers (backend.read_peers body)
  handle_post_config (err e) = response bad_request e

  abbrev pub delete_peers : Result (List String) String → Response
  delete_peers (ok peer_ids) = changed (send_and_await (backend.ask_delete peer_ids))
  delete_peers (err e) = response bad_request e

  unfoldable pub handle_delete_config : Result String String → Response
  handle_delete_config (ok body) = delete_peers (backend.read_ids body)
  handle_delete_config (err e) = response bad_request e

  abbrev pub metrics_text : Result Snapshot Response → Response
  metrics_text (ok taken) =
      typed_response "application/openmetrics-text; version=1.0.0; charset=utf-8"
        (backend.encode taken)
  metrics_text (err failure) = failure

  unfoldable pub handle_get_metrics : Response
  handle_get_metrics = metrics_text (send_and_await backend.ask_metrics)

  abbrev pub answer_endpoint : Handler → Result String String → Response
  answer_endpoint get_config body = handle_get_config
  answer_endpoint post_config body = handle_post_config body
  answer_endpoint delete_config body = handle_delete_config body
  answer_endpoint get_metrics body = handle_get_metrics
  answer_endpoint nowhere body = response not_found "not found"

  abbrev pub answer_relative : Method → Option String → Result String String → Response
  answer_relative method none body = response not_found "not found"
  answer_relative method (some relative) body = answer_endpoint (endpoint_of method relative) body

  unfoldable pub handle_request : String → Method → String → Result String String → Response
  handle_request api_path method path body =
      answer_relative method (relative_path api_path path) body
