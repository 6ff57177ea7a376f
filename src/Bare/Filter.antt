-- ===== src/Bare/Filter.antt =====
-- What the filter of bare UDP offers to the router.
use h3llo.Base.{
  ℕ, List, [], ◌∷◌, ◌++◌, Bool, true, false, ◌≡◌, refl, sym, ap, ◌∙◌, subst, if◌then◌else◌, map,
  Bool-cases, inl, inr, arith,
}
use mathlib.Core.List.{append_assoc, map-append}
use h3llo.Net.{IpAddr, SocketAddr}
use h3llo.Channel.{Sent, Channels}
use h3llo.Bare.{
  is_accepted, BareRx, RxEvent, received, input_closed, update_accepted_sources, stop, unexpected,
  tick, receive, filter_step, filter_run,
}

abbrev pub batches : {Tx : Type 0} → List (Sent Tx) → List (List (List ℕ))
batches sends = map (λ s. s.batch) sends

-- The batches whose source is accepted when they come, if no event is missed.
abbrev pub keep_if : Bool → List (List ℕ) → List (List (List ℕ)) → List (List (List ℕ))
keep_if true batch rest = batch ∷ rest
keep_if false batch rest = rest

abbrev pub accepted_batches : List IpAddr → List RxEvent → List (List (List ℕ))
accepted_batches sources [] = []
accepted_batches sources (received remote batch ∷ events) =
    keep_if (is_accepted sources remote.ip) batch (accepted_batches sources events)
accepted_batches sources (update_accepted_sources newer ∷ events) = accepted_batches newer events
accepted_batches sources (input_closed ∷ events) = accepted_batches sources events
accepted_batches sources (stop ∷ events) = accepted_batches sources events
accepted_batches sources (unexpected ∷ events) = accepted_batches sources events
accepted_batches sources (tick delivered ∷ events) = accepted_batches sources events

-- What is offered, followed by what is missed, is what was offered and the accepted batches; and
-- nothing is missed while the filter runs.
abbrev pub IsFiltered : {Tx : Type 0} → List RxEvent → BareRx Tx → BareRx Tx → Type 0
IsFiltered events f f' =
    (missed : List (List (List ℕ))) × ((batches f'.sends ++ missed
        ≡ batches f.sends ++ accepted_batches f.accepted_sources events)
      × (f'.is_running ≡ true → missed ≡ []))

module _ {Tx : Type 0} (channels : Channels Tx) where
  offered_one :
      (sends : List (Sent Tx)) (s : Sent Tx) (rest : List (List (List ℕ)))
      → batches (sends ++ s ∷ []) ++ rest ≡ batches sends ++ (s.batch ∷ rest)
  offered_one sends s rest =
      ap (λ bs. bs ++ rest) (map-append (λ (x : Sent Tx). x.batch) sends (s ∷ []))
      ∙ append_assoc (batches sends) (s.batch ∷ []) rest

  -- After the rest of the events, seen from the state before the first one.
  received-IsFiltered :
      (b : Bool) (remote : SocketAddr) (batch : List (List ℕ)) (events : List RxEvent)
      (f f' : BareRx Tx)
      → is_accepted f.accepted_sources remote.ip ≡ b
      → IsFiltered events (receive channels b batch f) f'
      → IsFiltered (received remote batch ∷ events) f f'
  received-IsFiltered false remote batch events f f' e (missed, (whole, all)) = (
    missed,
    (
      whole
          ∙ sym (
              ap
                (λ c.
                  batches f.sends ++ keep_if c batch (accepted_batches f.accepted_sources events))
                e),
      all,
    ),
  )
  received-IsFiltered true remote batch events f f' e (missed, (whole, all)) = (
    missed,
    (
      whole
          ∙ offered_one f.sends _ (accepted_batches f.accepted_sources events)
          ∙ sym (
              ap
                (λ c.
                  batches f.sends ++ keep_if c batch (accepted_batches f.accepted_sources events))
                e),
      all,
    ),
  )

  step-IsFiltered :
      (event : RxEvent) (events : List RxEvent) (f f' : BareRx Tx)
      → IsFiltered events (filter_step channels event f) f'
      → IsFiltered (event ∷ events) f f'
  unfolding filter_step
  step-IsFiltered (received remote batch) events f f' h =
      received-IsFiltered (is_accepted f.accepted_sources remote.ip) remote batch events f f' refl h
  step-IsFiltered input_closed events f f' h = h
  step-IsFiltered (update_accepted_sources sources) events f f' h = h
  step-IsFiltered stop events f f' h = h
  step-IsFiltered unexpected events f f' h = h
  step-IsFiltered (tick delivered) events f f' h = h

  -- Whatever comes, the filter offers to the router the batches whose source is accepted at the time,
  -- in their order and each once, up to the point where it ends; while it runs it has missed none.
  pub filter_run-IsFiltered :
      (events : List RxEvent) (f : BareRx Tx) → IsFiltered events f (filter_run channels events f)
  unfolding filter_run
  filter_run-IsFiltered [] f = ([], (refl, λ h. refl))
  filter_run-IsFiltered (event ∷ events) f =
      let next = filter_run channels events (filter_step channels event f) in
      let outcome = λ (b : Bool). IsFiltered (event ∷ events) f (if b then next else f) in
      elim (Bool-cases f.is_running) [
        | inl t ↦ subst outcome (sym t) (
            step-IsFiltered event events f next
              (filter_run-IsFiltered events (filter_step channels event f)))
        | inr ended ↦ subst outcome (sym ended) (
          accepted_batches f.accepted_sources (event ∷ events),
          (refl, λ h. let clash : true ≡ false = sym h ∙ ended in ground arith),
        )
      ]
