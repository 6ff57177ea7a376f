-- ===== src/Session.antt =====
-- The control state of a CONNECT-IP session (src/h3session.rs): `H3Session` and `poll_h3_events`.
-- The connection belongs to the crate quiche: what its `poll` returns is a list, which ends where
-- `poll` answers `Done`. `H` stands for the headers of a request or response.
pub mod Binding
pub mod Acceptance
use h3llo.Base.{
  ℕ, ◌/◌, ◌==◌, List, [], ◌∷◌, ◌++◌, Option, none, some, Bool, true, false, ◌&&◌, String, Result,
  ok, err, if◌then◌else◌,
}

pub data HeaderAction : Type 0 where
  accept : (stream_id : ℕ) (peer_id : Option String) → HeaderAction
  ignore : HeaderAction

pub data ConnectProgress : Type 0 where
  pending : ConnectProgress
  ready : ConnectProgress

-- The reasons for which `Closed` is raised, in place of their texts.
pub data ClosedReason : Type 0 where
  stream_finished : ClosedReason
  stream_reset : ℕ → ClosedReason
  received_go_away : ClosedReason
  missing_status : ClosedReason
  response_unsent : ClosedReason

pub data ConnectFailure : Type 0 where
  rejected : String → ConnectFailure
  closed : ClosedReason → ConnectFailure
  poll_failed : String → ConnectFailure

-- What `quiche::h3::Connection::poll` returns before `Done`: an event on a stream, or an error.
pub data Polled (H : Type 0) : Type 0 where
  headers : ℕ → H → Polled H
  finished : ℕ → Polled H
  reset : ℕ → ℕ → Polled H
  go_away : ℕ → Polled H
  priority_update : ℕ → Polled H
  unrelated : ℕ → Polled H
  poll_error : String → Polled H

-- `H3Session`, with the value that the DATAGRAM codec expects, and the streams whose read side was
-- shut down. The connection itself is not part of the state.
pub record H3Session : Type 0 where
  pub connect_stream_id : Option ℕ
  pub expected_qsi : ℕ
  pub connect_accepted : Bool
  pub accepted_peer_id : Option String
  pub shut_down : List ℕ

-- `with_transport`, where the connection can be made.
unfoldable pub with_transport : H3Session
with_transport = record {
  connect_stream_id = none;
  expected_qsi = 0;
  connect_accepted = false;
  accepted_peer_id = none;
  shut_down = [];
}

abbrev pub bind_connect_stream : ℕ → H3Session → H3Session
bind_connect_stream stream_id s = record s {
  connect_stream_id = some stream_id;
  expected_qsi = stream_id / 4;
}

abbrev pub connect_ready : Bool → H3Session → Bool
connect_ready dgram_enabled_by_peer s = s.connect_accepted && dgram_enabled_by_peer

abbrev pub act : HeaderAction → H3Session → H3Session
act ignore s = s
act (accept stream_id peer_id) s = record (bind_connect_stream stream_id s) {
  connect_accepted = true;
  accepted_peer_id = peer_id;
}

-- `self.connect_stream_id == Some(stream_id)`.
abbrev pub is_connect_stream : Option ℕ → ℕ → Bool
is_connect_stream none stream_id = false
is_connect_stream (some bound) stream_id = bound == stream_id

module _ {H : Type 0} (on_headers : ℕ → H → Result HeaderAction ConnectFailure) where
  -- One round of the loop: the session that is left, or the failure that is returned.
  unfoldable pub poll_step : Polled H → H3Session → Result H3Session ConnectFailure
  poll_step (headers stream_id list) s =
      if s.connect_accepted
      then ok (record s { shut_down = s.shut_down ++ stream_id ∷ [] })
      else elim (on_headers stream_id list) [ ok action ↦ ok (act action s) | err e ↦ err e ]
  poll_step (finished stream_id) s =
      if is_connect_stream s.connect_stream_id stream_id then err (closed stream_finished) else ok s
  poll_step (reset stream_id code) s =
      if is_connect_stream s.connect_stream_id stream_id
      then err (closed (stream_reset code))
      else ok s
  poll_step (go_away stream_id) s = err (closed received_go_away)
  poll_step (priority_update stream_id) s = ok s
  poll_step (unrelated stream_id) s = ok s
  poll_step (poll_error e) s = err (poll_failed e)

  -- The session afterwards, and what is returned.
  unfoldable pub poll_h3_events :
      Bool → List (Polled H) → H3Session → H3Session × Result ConnectProgress ConnectFailure
  poll_h3_events dgram [] s = (s, ok (if connect_ready dgram s then ready else pending))
  poll_h3_events dgram (event ∷ events) s = elim (poll_step event s) [
    | ok s' ↦ poll_h3_events dgram events s'
    | err e ↦ (s, err e)
  ]
