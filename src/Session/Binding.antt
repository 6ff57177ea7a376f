-- ===== src/Session/Binding.antt =====
-- To which stream a session is bound, and by whom it was accepted.
use h3llo.Base.{
  ℕ, List, [], ◌∷◌, ◌++◌, Bool, true, false, ◌≡◌, refl, sym, subst, Memᴰ, Result, ok, err,
  Result-cases, inl, inr, if◌then◌else◌,
}
use mathlib.Core.List.Memᴰ.{head, tail}
use h3llo.Session.{
  H3Session, HeaderAction, act, ConnectFailure, Polled, headers, finished, reset, go_away,
  priority_update, unrelated, poll_error, poll_step, poll_h3_events, is_connect_stream,
}

-- A predicate on the session that a round leaves, if it leaves one.
abbrev pub OnOk : (H3Session → Type 0) → Result H3Session ConnectFailure → Type 0
OnOk P (ok s) = P s
OnOk P (err e) = Unit

-- The two sessions are bound to the same stream, for the same peer.
abbrev pub IsSameBinding : H3Session → H3Session → Type 0
IsSameBinding s s' =
    (s'.connect_stream_id ≡ s.connect_stream_id)
    × ((s'.expected_qsi ≡ s.expected_qsi)
        × ((s'.connect_accepted ≡ s.connect_accepted) × (s'.accepted_peer_id ≡ s.accepted_peer_id)))

pub OnOk-if :
    (P : H3Session → Type 0) (b : Bool) (x : Result H3Session ConnectFailure)
    (y : Result H3Session ConnectFailure)
    → OnOk P x
    → OnOk P y
    → OnOk P (if b then x else y)
OnOk-if P true x y h k = h
OnOk-if P false x y h k = k

module _ {H : Type 0} (on_headers : ℕ → H → Result HeaderAction ConnectFailure) where
  -- A poll goes on where a round leaves a session, and stops at the first failure.
  pub poll_h3_events-ok :
      (dgram : Bool) (event : Polled H) (events : List (Polled H)) (s s' : H3Session)
      → poll_step on_headers event s ≡ ok s'
      → poll_h3_events on_headers dgram (event ∷ events) s
        ≡ poll_h3_events on_headers dgram events s'
  unfolding poll_h3_events
  poll_h3_events-ok dgram event events s s' e = rw (e, poll_h3_events) refl

  pub poll_h3_events-err :
      (dgram : Bool) (event : Polled H) (events : List (Polled H)) (s : H3Session)
      (failure : ConnectFailure)
      → poll_step on_headers event s ≡ err failure
      → poll_h3_events on_headers dgram (event ∷ events) s ≡ (s, err failure)
  unfolding poll_h3_events
  poll_h3_events-err dgram event events s failure e = rw (e, poll_h3_events) refl

  -- What every round keeps, a whole poll keeps.
  pub poll_h3_events-keeps :
      (P : H3Session → Type 0) (dgram : Bool) (events : List (Polled H))
      (step : (event : Polled H)
        → Memᴰ event events
        → (s : H3Session) → P s
        → OnOk P (poll_step on_headers event s))
      (s : H3Session)
      → P s
      → P (poll_h3_events on_headers dgram events s).0
  unfolding poll_h3_events
  poll_h3_events-keeps P dgram [] step s h = h
  poll_h3_events-keeps P dgram (event ∷ events) step s h =
      elim (Result-cases (poll_step on_headers event s)) [
        | inl done ↦
            rw (done.1, poll_h3_events)
              (poll_h3_events-keeps P dgram events (λ e m. step e (tail m)) done.0
                (subst (OnOk P) done.1 (step event (head refl) s h)))
        | inr failed ↦ rw (failed.1, poll_h3_events) h
      ]

  pub poll_step-IsSameBinding :
      (first : H3Session) (event : Polled H) (s : H3Session)
      → (s.connect_accepted ≡ true) × IsSameBinding first s
      → OnOk
          (λ s'. (s'.connect_accepted ≡ true) × IsSameBinding first s')
          (poll_step on_headers event s)
  unfolding poll_step
  poll_step-IsSameBinding first (headers stream_id list) s h =
      subst
        (λ b.
          OnOk (λ s'. (s'.connect_accepted ≡ true) × IsSameBinding first s')
            (if b
              then ok (record s { shut_down = s.shut_down ++ stream_id ∷ [] })
              else elim (on_headers stream_id list) [
                | ok action ↦ ok (act action s)
                | err e ↦ err e
              ]))
        (sym h.0) h
  poll_step-IsSameBinding first (finished stream_id) s h =
      OnOk-if (λ s'. (s'.connect_accepted ≡ true) × IsSameBinding first s')
        (is_connect_stream s.connect_stream_id stream_id) (err _) (ok s) tt h
  poll_step-IsSameBinding first (reset stream_id code) s h =
      OnOk-if (λ s'. (s'.connect_accepted ≡ true) × IsSameBinding first s')
        (is_connect_stream s.connect_stream_id stream_id) (err _) (ok s) tt h
  poll_step-IsSameBinding first (go_away stream_id) s h = tt
  poll_step-IsSameBinding first (priority_update stream_id) s h = h
  poll_step-IsSameBinding first (unrelated stream_id) s h = h
  poll_step-IsSameBinding first (poll_error e) s h = tt

  -- Once a session is accepted, no event binds it to another stream or to another peer, and the
  -- value that the codec expects stays as it is.
  pub poll_h3_events-IsSameBinding :
      (dgram : Bool) (events : List (Polled H)) (s : H3Session)
      → s.connect_accepted ≡ true
      → IsSameBinding s (poll_h3_events on_headers dgram events s).0
  poll_h3_events-IsSameBinding dgram events s h =
      (poll_h3_events-keeps (λ s'. (s'.connect_accepted ≡ true) × IsSameBinding s s') dgram events
        (λ event m. poll_step-IsSameBinding s event) s (h, (refl, (refl, (refl, refl))))).1
