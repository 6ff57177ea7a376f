-- ===== src/Examples/Sessions.antt =====
-- A session whose peer is accepted on stream 4; headers are numbers, and 200 is accepted.
use h3llo.Base.{ℕ, ◌==◌, List, [], ◌∷◌, some, true, false, ◌≡◌, refl, Result, ok, if◌then◌else◌}
use h3llo.Session.{
  H3Session, HeaderAction, accept, ignore, ConnectFailure, ready, Polled, headers, finished,
  unrelated, poll_h3_events, with_transport, poll_step,
}
use h3llo.Session.Binding.{IsSameBinding, poll_h3_events-IsSameBinding}

abbrev on_headers : ℕ → ℕ → Result HeaderAction ConnectFailure
on_headers stream status = ok (if status == 200 then accept stream (some "peer") else ignore)

abbrev accepted : H3Session
accepted = record {
  connect_stream_id = some 4;
  expected_qsi = 1;
  connect_accepted = true;
  accepted_peer_id = some "peer";
  shut_down = [];
}

-- A second request after the session is accepted.
abbrev intrusion : List (Polled ℕ)
intrusion = unrelated 8 ∷ headers 8 200 ∷ finished 4 ∷ []

abbrev opening : List (Polled ℕ)
opening = unrelated 0 ∷ headers 4 200 ∷ []

poll_h3_events-IsSameBinding_example :
    IsSameBinding accepted (poll_h3_events on_headers true intrusion accepted).0
poll_h3_events-IsSameBinding_example =
    poll_h3_events-IsSameBinding on_headers true intrusion accepted refl

opened : (poll_h3_events on_headers true opening with_transport).1 ≡ ok ready
unfolding poll_h3_events poll_step with_transport
opened = refl

fresh : with_transport.connect_accepted ≡ false
unfolding with_transport
fresh = refl
