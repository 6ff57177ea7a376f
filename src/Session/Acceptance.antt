-- ===== src/Session/Acceptance.antt =====
-- When a session is ready, and when it ends.
use h3llo.Base.{
  ℕ, ◌/◌, ==_iff, List, [], ◌∷◌, Option, some, Bool, true, false, ◌&&◌, String, ◌≡◌, ◌⊎◌, refl, sym,
  ap, ◌∙◌, subst, Memᴰ, Result, ok, err, Result-cases, inl, inr, arith, if◌then◌else◌,
}
use mathlib.Core.List.Memᴰ.{head, tail}
use h3llo.Session.{
  H3Session, HeaderAction, accept, ignore, act, ConnectFailure, ConnectProgress, ready, pending,
  Polled, headers, finished, reset, go_away, priority_update, unrelated, poll_error, poll_step,
  poll_h3_events, is_connect_stream, stream_finished, closed,
}
use h3llo.Session.Binding.{
  OnOk, OnOk-if, IsSameBinding, poll_h3_events-ok, poll_h3_events-err, poll_h3_events-keeps,
  poll_step-IsSameBinding,
}

module _ {H : Type 0} (on_headers : ℕ → H → Result HeaderAction ConnectFailure) where
  -- Some headers that arrived were accepted by the handler, and the session is bound to the stream
  -- and the peer that the handler named.
  abbrev pub IsAcceptedBy : List (Polled H) → H3Session → Type 0
  IsAcceptedBy events s =
      (stream : ℕ) × (list : H) × (stream_id : ℕ) × (peer_id : Option String) × Memᴰ
        (headers stream list) events
      × (on_headers stream list ≡ ok (accept stream_id peer_id))
      × (s.connect_stream_id ≡ some stream_id)
      × (s.expected_qsi ≡ stream_id / 4)
      × (s.accepted_peer_id ≡ peer_id)

  abbrev IsAuthentic : List (Polled H) → H3Session → Type 0
  IsAuthentic events s = (s.connect_accepted ≡ false) ⊎ IsAcceptedBy events s

  handled :
      (events : List (Polled H)) (stream : ℕ) (list : H) (s : H3Session)
      (r : Result HeaderAction ConnectFailure)
      → Memᴰ (headers stream list) events
      → on_headers stream list ≡ r
      → IsAuthentic events s
      → OnOk (IsAuthentic events) (elim r [ ok action ↦ ok (act action s) | err e ↦ err e ])
  handled events stream list s (ok (accept stream_id peer_id)) m e h =
      inr (stream, list, stream_id, peer_id, m, e, refl, refl, refl)
  handled events stream list s (ok ignore) m e h = h
  handled events stream list s (err failure) m e h = tt

  poll_step-IsAuthentic :
      (events : List (Polled H)) (event : Polled H)
      → Memᴰ event events
      → (s : H3Session) → IsAuthentic events s
      → OnOk (IsAuthentic events) (poll_step on_headers event s)
  unfolding poll_step
  poll_step-IsAuthentic events (headers stream list) m s h =
      OnOk-if (IsAuthentic events) s.connect_accepted _ _ h
        (handled events stream list s (on_headers stream list) m refl h)
  poll_step-IsAuthentic events (finished stream) m s h =
      OnOk-if (IsAuthentic events) (is_connect_stream s.connect_stream_id stream) _ (ok s) tt h
  poll_step-IsAuthentic events (reset stream code) m s h =
      OnOk-if (IsAuthentic events) (is_connect_stream s.connect_stream_id stream) _ (ok s) tt h
  poll_step-IsAuthentic events (go_away stream) m s h = tt
  poll_step-IsAuthentic events (priority_update stream) m s h = h
  poll_step-IsAuthentic events (unrelated stream) m s h = h
  poll_step-IsAuthentic events (poll_error e) m s h = tt

  progress :
      (a d : Bool)
      → Path
          (Result ConnectProgress ConnectFailure)
          (ok (if a && d then ready else pending))
          (ok ready)
      → (a ≡ true) × (d ≡ true)
  progress true true h = (refl, refl)
  progress true false h = ground arith
  progress false d h = ground arith

  not-ready :
      (e : ConnectFailure) → ¬ (Path (Result ConnectProgress ConnectFailure) (err e) (ok ready))
  not-ready e h = ground arith

  finished_lem :
      (s : H3Session) (stream_id : ℕ)
      → s.connect_stream_id ≡ some stream_id
      → poll_step on_headers (finished stream_id) s ≡ err (closed stream_finished)
  unfolding poll_step
  finished_lem s stream_id bound =
      ap (λ b. if b then err (closed stream_finished) else ok s)
        (ap (λ o. is_connect_stream o stream_id) bound ∙ (==_iff stream_id stream_id).1 refl)

  ready_lem :
      (dgram : Bool) (events : List (Polled H)) (s : H3Session)
      → (poll_h3_events on_headers dgram events s).1 ≡ ok ready
      → ((poll_h3_events on_headers dgram events s).0.connect_accepted ≡ true) × (dgram ≡ true)
  unfolding poll_h3_events
  ready_lem dgram [] s h = progress s.connect_accepted dgram h
  ready_lem dgram (event ∷ events) s h = elim (Result-cases (poll_step on_headers event s)) [
    | inl done ↦
        let next = poll_h3_events-ok on_headers dgram event events s done.0 done.1 in
        let later : (poll_h3_events on_headers dgram events done.0).1 ≡ ok ready =
          ap (λ (r : H3Session × Result ConnectProgress ConnectFailure). r.1) (sym next) ∙ h in
        subst
          (λ (r : H3Session × Result ConnectProgress ConnectFailure).
            (r.0.connect_accepted ≡ true) × (dgram ≡ true))
          (sym next) (ready_lem dgram events done.0 later)
    | inr failed ↦
        let stop = poll_h3_events-err on_headers dgram event events s failed.0 failed.1 in
        absurd (
          not-ready failed.0
            (ap (λ (r : H3Session × Result ConnectProgress ConnectFailure). r.1) (sym stop) ∙ h))
  ]

  -- A session that was not accepted yet is reported ready only if the other side takes datagrams and
  -- the handler accepted headers that arrived; then it is bound as the handler said.
  pub poll_h3_events-ready :
      (dgram : Bool) (events : List (Polled H)) (s : H3Session)
      → s.connect_accepted ≡ false
      → (poll_h3_events on_headers dgram events s).1 ≡ ok ready
      → (dgram ≡ true) × IsAcceptedBy events (poll_h3_events on_headers dgram events s).0
  poll_h3_events-ready dgram events s fresh h =
      let is_ready = ready_lem dgram events s h in
      elim (poll_h3_events-keeps on_headers (IsAuthentic events) dgram events
        (poll_step-IsAuthentic events) s (inl fresh)) [
          | inl unset ↦ ground arith
          | inr authentic ↦ (is_ready.1, authentic)
        ]

  -- If the stream that an accepted session is bound to ends, the poll fails, whatever else happens.
  pub poll_h3_events-finished :
      (dgram : Bool) (events : List (Polled H)) (s : H3Session) (stream_id : ℕ)
      → s.connect_accepted ≡ true
      → s.connect_stream_id ≡ some stream_id
      → Memᴰ (finished stream_id) events
      → (failure : ConnectFailure) × ((poll_h3_events on_headers dgram events s).1 ≡ err failure)
  poll_h3_events-finished dgram [] s stream_id accepted bound m = elim m [ ]
  poll_h3_events-finished dgram (event ∷ events) s stream_id accepted bound (head same) = (
    closed stream_finished,
    ap (λ (r : H3Session × Result ConnectProgress ConnectFailure). r.1)
        (poll_h3_events-err on_headers dgram event events s (closed stream_finished) (
          subst (λ e. poll_step on_headers e s ≡ err (closed stream_finished)) same
            (finished_lem s stream_id bound))),
  )
  poll_h3_events-finished dgram (event ∷ events) s stream_id accepted bound (tail m) =
      elim (Result-cases (poll_step on_headers event s)) [
        | inl done ↦
            let kept =
              subst (OnOk (λ s'. (s'.connect_accepted ≡ true) × IsSameBinding s s')) done.1 (
                poll_step-IsSameBinding on_headers s event s
                  (accepted, (refl, (refl, (refl, refl))))) in
            let next = poll_h3_events-ok on_headers dgram event events s done.0 done.1 in
            let later =
              poll_h3_events-finished dgram events done.0 stream_id kept.0 (kept.1.0 ∙ bound) m in
            (
              later.0,
              ap (λ (r : H3Session × Result ConnectProgress ConnectFailure). r.1) next ∙ later.1,
            )
        | inr failed ↦ (
          failed.0,
          ap (λ (r : H3Session × Result ConnectProgress ConnectFailure). r.1)
              (poll_h3_events-err on_headers dgram event events s failed.0 failed.1),
        )
      ]
