-- ===== src/Handshake/Server/Sessions.antt =====
-- What a session knows of the peer whose request it accepted.
use h3llo.Base.{
  ℕ, List, [], ◌∷◌, Option, some, Bool, true, ◌&&◌, String, Result, ok, err, Result-cases, Memᴰ,
  ◌≡◌, refl, sym, ap, ◌∙◌, Bool-cases, inl, inr, if◌then◌else◌,
}
use h3llo.Session.Binding.{
  OnOk, OnOk-if, poll_h3_events-ok, poll_h3_events-err, poll_h3_events-keeps,
}
use h3llo.Session.{
  H3Session, HeaderAction, accept, ignore, ConnectProgress, pending, ready, ConnectFailure, Polled,
  headers, finished, reset, go_away, priority_update, unrelated, poll_error, act, poll_step,
  poll_h3_events, connect_ready, is_connect_stream,
}

ready_accepted :
    (dgram : Bool) (s : H3Session)
    → ◌≡◌ {A = Result ConnectProgress ConnectFailure}
        (ok (if connect_ready dgram s then ready else pending))
        (ok ready)
    → s.connect_accepted ≡ true
ready_accepted dgram s e = elim (Bool-cases s.connect_accepted) [
  | inl t ↦ t
  | inr f ↦
      let clash : ◌≡◌ {A = Result ConnectProgress ConnectFailure} (ok pending) (ok ready) =
        sym (ap (λ b. ok (if b && dgram then ready else pending)) f) ∙ e in
      cc
]

-- What is known of a session: if it has accepted a stream, it holds the id of a peer of whom `P` is
-- true.
module _ (P : String → Type 0) where
  abbrev pub HasPeer : H3Session → Type 0
  HasPeer s =
      s.connect_accepted ≡ true
      → (peer_id : String) × (s.accepted_peer_id ≡ some peer_id) × P peer_id

  module _ {H : Type 0} (on_headers : ℕ → H → Result HeaderAction ConnectFailure) where
    abbrev pub IsSound : List (Polled H) → Type 0
    IsSound events =
        (stream_id other : ℕ) (list : H) (peer : Option String)
        → Memᴰ (headers stream_id list) events
        → on_headers stream_id list ≡ ok (accept other peer)
        → (peer_id : String) × (peer ≡ some peer_id) × P peer_id

    acted :
        (stream_id : ℕ) (list : H) (events : List (Polled H)) (s : H3Session)
        → IsSound events
        → HasPeer s
        → Memᴰ (headers stream_id list) events
        → (action : Result HeaderAction ConnectFailure) → on_headers stream_id list ≡ action
        → OnOk HasPeer (elim action [ ok a ↦ ok (act a s) | err e ↦ err e ])
    acted stream_id list events s sound h m (err e) known = tt
    acted stream_id list events s sound h m (ok ignore) known = h
    acted stream_id list events s sound h m (ok (accept other peer)) known =
        λ _. sound stream_id other list peer m known

    poll_step-HasPeer :
        (event : Polled H) (events : List (Polled H)) (s : H3Session)
        → IsSound events
        → HasPeer s
        → Memᴰ event events
        → OnOk HasPeer (poll_step on_headers event s)
    unfolding poll_step
    poll_step-HasPeer (headers stream_id list) events s sound h m =
        OnOk-if HasPeer s.connect_accepted _ _ h
          (acted stream_id list events s sound h m (on_headers stream_id list) refl)
    poll_step-HasPeer (finished stream_id) events s sound h m =
        OnOk-if HasPeer (is_connect_stream s.connect_stream_id stream_id) (err _) (ok s) tt h
    poll_step-HasPeer (reset stream_id code) events s sound h m =
        OnOk-if HasPeer (is_connect_stream s.connect_stream_id stream_id) (err _) (ok s) tt h
    poll_step-HasPeer (go_away stream_id) events s sound h m = tt
    poll_step-HasPeer (priority_update stream_id) events s sound h m = h
    poll_step-HasPeer (unrelated stream_id) events s sound h m = h
    poll_step-HasPeer (poll_error reason) events s sound h m = tt

    pub poll_h3_events-HasPeer :
        (dgram : Bool) (events : List (Polled H)) (s : H3Session)
        → IsSound events
        → HasPeer s
        → HasPeer (poll_h3_events on_headers dgram events s).0
    poll_h3_events-HasPeer dgram events s sound h =
        poll_h3_events-keeps on_headers HasPeer dgram events
          (λ event m s h. poll_step-HasPeer event events s sound h m) s h

    -- A poll that answers `Ready` leaves an accepted session.
    pub poll_h3_events-connect_accepted :
        (dgram : Bool) (events : List (Polled H)) (s : H3Session)
        → (poll_h3_events on_headers dgram events s).1 ≡ ok ready
        → (poll_h3_events on_headers dgram events s).0.connect_accepted ≡ true
    unfolding poll_h3_events
    poll_h3_events-connect_accepted dgram [] s e = ready_accepted dgram s e
    poll_h3_events-connect_accepted dgram (event ∷ events) s e =
        elim (Result-cases (poll_step on_headers event s)) [
          | inl (s', goes) ↦
              let same = poll_h3_events-ok on_headers dgram event events s s' goes in
              ap (λ out. out.0.connect_accepted) same
              ∙ poll_h3_events-connect_accepted dgram events s' (sym (ap (λ out. out.1) same) ∙ e)
          | inr (failure, stops) ↦
              let same = poll_h3_events-err on_headers dgram event events s failure stops in
              let clash : err failure ≡ ok ready = sym (ap (λ out. out.1) same) ∙ e in cc
        ]
