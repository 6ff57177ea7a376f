-- ===== src/Router/Routed.antt =====
-- What a run of the router actor offers: each batch is routed by the table of the last update before it.
use h3llo.Base.{
  ℕ, List, [], ◌∷◌, ◌++◌, Option, none, some, Bool, true, false, if◌then◌else◌, ◌≡◌, refl, sym, ap,
  ◌∙◌, Option-cases, inl, inr,
}
use mathlib.Core.List.{append_assoc, append-nil}
use h3llo.Net.{IpAddr}
use h3llo.Table.{RouteMatch}
use h3llo.Metrics.{snapshot}
use h3llo.Channel.{Channels}
use h3llo.Packet.{extract_dst_ip}
use h3llo.Router.{RouterState, drop_batch, handle_output_batch}
use h3llo.Router.Fate.{fate}
use h3llo.Router.Offers.{offered, all_due, send_batch-offered}
use h3llo.Router.Order.{handle_ingress_batch-offered}
use h3llo.Router.Loop.{
  RouterActor, RouterEvent, output, ingress, update_routing, unexpected, tick, stop, closed,
  router_step, with_state, and_next, router_run,
}

module _ {Net Table Tx : Type 0} (channels : Channels Tx)
    (lookup : Table → IpAddr → Option (RouteMatch Net Tx)) (c : Tx) where
  -- A batch of output goes as a whole where its first packet leads.
  abbrev pub routed_share : List (List ℕ) → Option (RouteMatch Net Tx) → List (List ℕ)
  routed_share batch none = []
  routed_share batch (some route) = if channels.same_channel route.tx c then batch else []

  abbrev pub addressed_share : Table → List (List ℕ) → Option IpAddr → List (List ℕ)
  addressed_share routing batch none = []
  addressed_share routing batch (some dest) = routed_share batch (lookup routing dest)

  abbrev pub output_due : Table → List (List ℕ) → List (List ℕ)
  output_due routing [] = []
  output_due routing (first ∷ batch) =
      addressed_share routing (first ∷ batch) (extract_dst_ip first)

  -- The packets that are due to the channel by the events of a run that begins with this table;
  -- the last argument says whether the loop still goes.
  abbrev pub due_in_run : Tx → List (RouterEvent Table) → Table → Bool → List (List ℕ)
  due_in_run input_tx [] routing goes = []
  due_in_run input_tx (event ∷ events) routing false = []
  due_in_run input_tx (output batch ∷ events) routing true =
      output_due routing batch ++ due_in_run input_tx events routing true
  due_in_run input_tx (ingress batch ∷ events) routing true =
      all_due channels c input_tx (fate channels (lookup routing) input_tx) batch
      ++ due_in_run input_tx events routing true
  due_in_run input_tx (update_routing newer ∷ events) routing true =
      due_in_run input_tx events newer true
  due_in_run input_tx (unexpected ∷ events) routing true = due_in_run input_tx events routing true
  due_in_run input_tx (tick delivered ∷ events) routing true =
      due_in_run input_tx events routing delivered
  due_in_run input_tx (stop ∷ events) routing true = []
  due_in_run input_tx (closed ∷ events) routing true = []

  handle_output_batch-offered :
      (routing : Table) (batch : List (List ℕ)) (st : RouterState Tx)
      → offered channels c (handle_output_batch channels (lookup routing) batch st).sends
        ≡ offered channels c st.sends ++ output_due routing batch
  unfolding handle_output_batch drop_batch
  handle_output_batch-offered routing [] st = sym (append-nil (offered channels c st.sends))
  handle_output_batch-offered routing (first ∷ batch) st =
      elim (Option-cases (extract_dst_ip first)) [
        | inl bad ↦ rw (bad, handle_output_batch) (sym (append-nil (offered channels c st.sends)))
        | inr (dest, good) ↦ elim (Option-cases (lookup routing dest)) [
          | inl away ↦
              rw (good, away, handle_output_batch) (sym (append-nil (offered channels c st.sends)))
          | inr (route, there) ↦
              rw (good, there, handle_output_batch)
                (send_batch-offered channels c route.tx (first ∷ batch) st)
        ]
      ]

  run_on :
      (event : RouterEvent Table) (events : List (RouterEvent Table)) (r r1 : RouterActor Table Tx)
      → r.is_running ≡ true
      → router_step channels lookup event r ≡ some r1
      → router_run channels lookup (event ∷ events) r ≡ router_run channels lookup events r1
  unfolding router_run
  run_on event events r r1 goes step =
      let next = and_next channels lookup (router_run channels lookup events) in
      ap (λ b. if b then next (router_step channels lookup event r) else some r) goes ∙ ap next step

  -- The outcome of a run, and what it has offered to the channel.
  abbrev HasOutcome : List (RouterEvent Table) → RouterActor Table Tx → Bool → Type 0
  HasOutcome events r goes =
      (r' : RouterActor Table Tx) × (router_run channels lookup events r ≡ some r')
      × (offered channels c r'.state.sends
          ≡ offered channels c r.state.sends ++ due_in_run r.input_tx events r.routing goes)

  never :
      (events : List (RouterEvent Table)) (r : RouterActor Table Tx)
      → offered channels c r.state.sends ++ due_in_run r.input_tx events r.routing false
        ≡ offered channels c r.state.sends ++ []
  never [] r = refl
  never (event ∷ events) r = refl

  router_run-HasOutcome :
      (events : List (RouterEvent Table)) (r : RouterActor Table Tx) (goes : Bool)
      → r.is_running ≡ goes
      → HasOutcome events r goes
  unfolding router_run router_step
  router_run-HasOutcome [] r goes e = (r, refl, sym (append-nil (offered channels c r.state.sends)))
  router_run-HasOutcome (event ∷ events) r false e =
      let next = and_next channels lookup (router_run channels lookup events) in
      (
        r,
        ap (λ b. if b then next (router_step channels lookup event r) else some r) e,
        sym (append-nil (offered channels c r.state.sends)),
      )
  router_run-HasOutcome (output batch ∷ events) r true e =
      let r1 = record r { state = handle_output_batch channels (lookup r.routing) batch r.state } in
      let (r', done, later) = router_run-HasOutcome events r1 true e in
      let rest = due_in_run r.input_tx events r.routing true in
      (
        r',
        run_on (output batch) events r r1 e refl ∙ done,
        later
            ∙ ap (λ ps. ps ++ rest) (handle_output_batch-offered r.routing batch r.state)
            ∙ append_assoc (offered channels c r.state.sends) (output_due r.routing batch) rest,
      )
  router_run-HasOutcome (ingress batch ∷ events) r true e =
      let (st, handled, due) =
        handle_ingress_batch-offered channels (lookup r.routing) r.input_tx batch r.state in
      let r1 = record r { state = st } in
      let (r', done, later) = router_run-HasOutcome events r1 true e in
      let rest = due_in_run r.input_tx events r.routing true in
      (
        r',
        run_on (ingress batch) events r r1 e (ap (with_state r) handled) ∙ done,
        later
            ∙ ap (λ ps. ps ++ rest) (due c)
            ∙ append_assoc (offered channels c r.state.sends)
                (all_due channels c r.input_tx (fate channels (lookup r.routing) r.input_tx) batch)
                rest,
      )
  router_run-HasOutcome (update_routing newer ∷ events) r true e =
      let r1 = record r { routing = newer } in
      let (r', done, later) = router_run-HasOutcome events r1 true e in
      (r', run_on (update_routing newer) events r r1 e refl ∙ done, later)
  router_run-HasOutcome (unexpected ∷ events) r true e =
      let (r', done, later) = router_run-HasOutcome events r true e in
      (r', run_on unexpected events r r e refl ∙ done, later)
  router_run-HasOutcome (tick delivered ∷ events) r true e =
      let r1 = record r {
        emitted = r.emitted ++ snapshot r.state.counters none none ∷ [];
        is_running = delivered;
      } in
      let (r', done, later) = router_run-HasOutcome events r1 delivered refl in
      (r', run_on (tick delivered) events r r1 e refl ∙ done, later)
  router_run-HasOutcome (stop ∷ events) r true e =
      let r1 = record r { is_running = false } in
      let (r', done, later) = router_run-HasOutcome events r1 false refl in
      (r', run_on stop events r r1 e refl ∙ done, later ∙ never events r)
  router_run-HasOutcome (closed ∷ events) r true e =
      let r1 = record r { is_running = false } in
      let (r', done, later) = router_run-HasOutcome events r1 false refl in
      (r', run_on closed events r r1 e refl ∙ done, later ∙ never events r)

  -- Whatever batches, tables and other events come to a router that runs, it returns, and it has
  -- offered to each channel exactly the packets that are due to it, in their order: of every batch
  -- before the end of the loop, those that the table of the last update before the batch leads to the
  -- channel; after a stop, a closed mailbox or an owner that is gone, none.
  pub router_run-offered :
      (events : List (RouterEvent Table)) (r : RouterActor Table Tx)
      → r.is_running ≡ true
      → (r' : RouterActor Table Tx) × (router_run channels lookup events r ≡ some r')
        × (offered channels c r'.state.sends
            ≡ offered channels c r.state.sends ++ due_in_run r.input_tx events r.routing true)
  router_run-offered events r goes = router_run-HasOutcome events r true goes
