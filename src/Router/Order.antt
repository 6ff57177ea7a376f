-- ===== src/Router/Order.antt =====
-- Batches and groups do not change what happens to a packet: each channel is offered the packets
-- that are due to it, one by one, in the order of arrival.
use h3llo.Base.{
  ℕ, zero, suc, ◌≤◌, ◌≡◌, refl, sym, ap, ◌∙◌, List, [], ◌∷◌, ◌++◌, Option, none, some, length, All,
  arith, Bool-cases, Option-cases, inl, inr,
}
use h3llo.Metrics.{invalid_ip_version}
use mathlib.Core.List.{append_assoc, append-nil}
use h3llo.Net.{IpAddr}
use h3llo.Table.{RouteMatch}
use h3llo.Packet.{extract_dst_ip, decrement_ttl}
use h3llo.Channel.{Channels}
use h3llo.Router.{
  RouterState, split_group, drop_batch, forward_group, ingress_loop, handle_ingress_batch,
}
use h3llo.Router.Fate.{
  Fate, unroutable, aged_fate, fate_by, fate, fate_good, fate_bad, fate_local, fate_remote, GoesTo,
  split_group-GoesTo, split_group-append, length-split_group,
}
use h3llo.Router.Offers.{
  no_aged, offered, due, all_due, all_due-append, all_due_unroutable, all_due_deliver,
  age_group-pending, send_batch-offered, forward_aged-offered, no_pending, all_due-ext,
}

module _ {Net Tx : Type 0} (channels : Channels Tx) (lookup : IpAddr → Option (RouteMatch Net Tx))
    (input_tx c : Tx) where
  abbrev due_by : (List ℕ → Fate Tx) → List (List ℕ) → List (List ℕ)
  due_by = all_due channels c input_tx

  abbrev due_to : List (List ℕ) → List (List ℕ)
  due_to = due_by (fate channels lookup input_tx)

  by_route-offered :
      (r : Option (RouteMatch Net Tx)) (dst : IpAddr) (group : List (List ℕ)) (st : RouterState Tx)
      → lookup dst ≡ r
      → offered channels c (forward_group channels lookup input_tx dst group st).sends
        ≡ offered channels c st.sends ++ due_by (fate_by channels lookup input_tx r) group
  unfolding forward_group drop_batch
  by_route-offered none dst group st missed =
      rw (missed, forward_group)
        (sym (append-nil _)
          ∙ ap (◌++◌ (offered channels c st.sends)) (
              sym (all_due_unroutable channels c input_tx group)
              ∙ all_due-ext channels c input_tx (λ p. unroutable) _ group (λ p. refl)))
  by_route-offered (some route) dst group st found =
      elim (Bool-cases (channels.same_channel route.tx input_tx)) [
        | inl local ↦
            rw (found, forward_group)
              (rw local (
                send_batch-offered channels c route.tx group st
                ∙ ap (◌++◌ (offered channels c st.sends)) (
                    sym (all_due_deliver channels c input_tx route.tx group)
                    ∙ all_due-ext channels c input_tx _ _ group
                        (λ p. fate_local channels lookup input_tx route p local))))
        | inr other ↦
            rw (found, forward_group)
              (rw other (
                forward_aged-offered channels c route.tx input_tx _ st.sends
                ∙ ap (◌++◌ (offered channels c st.sends)) (
                    age_group-pending channels c route.tx input_tx group (no_aged st.counters) other
                    ∙ ap
                        (λ l.
                          l
                          ++ due_by
                              (λ p. aged_fate route.tx (decrement_ttl p).0 (decrement_ttl p).1)
                              group)
                        (no_pending channels c route.tx input_tx st.counters)
                    ∙ (all_due-ext channels c input_tx _ _ group
                        (λ p. fate_remote channels lookup input_tx route p other)))))
      ]

  group_due :
      (dst : IpAddr) (group : List (List ℕ))
      → All (GoesTo dst) group
      → due_to group ≡ due_by (fate_by channels lookup input_tx (lookup dst)) group
  group_due dst [] h = refl
  group_due dst (packet ∷ group) (e, h) =
      ap (λ f. due channels c input_tx f ++ due_to group)
        (fate_good channels lookup input_tx packet dst e)
      ∙ ap (◌++◌ (due channels c input_tx (fate_by channels lookup input_tx (lookup dst) packet)))
          (group_due dst group h)

  ingress_loop-offered :
      (fuel : ℕ) (batch : List (List ℕ)) (st st' : RouterState Tx)
      → ingress_loop channels lookup input_tx fuel batch st ≡ some st'
      → offered channels c st'.sends ≡ offered channels c st.sends ++ due_to batch
  unfolding ingress_loop drop_batch
  ingress_loop-offered fuel [] st st' h = ground (arith, append-nil (offered channels c st.sends))
  ingress_loop-offered zero (packet ∷ packets) st st' h = cc
  ingress_loop-offered (suc fuel) (packet ∷ packets) st st' h =
      elim (Option-cases (extract_dst_ip packet)) [
        | inl bad ↦
            let next = drop_batch invalid_ip_version (packet ∷ []) st in
            ingress_loop-offered fuel packets next st' (rw (bad, ingress_loop) at h)
            ∙ ap (λ f. offered channels c st.sends ++ (due channels c input_tx f ++ due_to packets))
                (sym (fate_bad channels lookup input_tx packet bad))
        | inr (dst, good) ↦
            let group = (split_group dst packets).0 in
            let rest = (split_group dst packets).1 in
            let next = forward_group channels lookup input_tx dst (packet ∷ group) st in
            ingress_loop-offered fuel rest next st' (rw (good, ingress_loop) at h)
            ∙ ap (λ l. l ++ due_to rest)
                (by_route-offered (lookup dst) dst (packet ∷ group) st refl
                  ∙ ap (◌++◌ (offered channels c st.sends))
                      (sym (group_due dst (packet ∷ group) (good, split_group-GoesTo dst packets))))
            ∙ append_assoc (offered channels c st.sends) (due_to (packet ∷ group)) (due_to rest)
            ∙ ap (◌++◌ (offered channels c st.sends)) (
                sym (
                  all_due-append channels c input_tx (fate channels lookup input_tx)
                    (packet ∷ group) rest)
                ∙ ap (λ l. due_to (packet ∷ l)) (split_group-append dst packets))
      ]

module _ {Net Tx : Type 0} (channels : Channels Tx) (lookup : IpAddr → Option (RouteMatch Net Tx))
    (input_tx : Tx) where
  ingress_loop-total :
      (fuel : ℕ) (batch : List (List ℕ)) (st : RouterState Tx)
      → length batch ≤ fuel
      → (st' : RouterState Tx) × (ingress_loop channels lookup input_tx fuel batch st ≡ some st')
  unfolding ingress_loop
  ingress_loop-total fuel [] st h = (st, refl)
  ingress_loop-total zero (packet ∷ packets) st h = absurd (omega arith)
  ingress_loop-total (suc fuel) (packet ∷ packets) st h =
      elim (Option-cases (extract_dst_ip packet)) [
        | inl bad ↦ rw (bad, ingress_loop) (ingress_loop-total fuel packets _ (omega arith))
        | inr (dst, good) ↦
            rw (good, ingress_loop)
              (ingress_loop-total fuel (split_group dst packets).1 _
                (omega (arith, length-split_group dst packets)))
      ]

  -- The ingress handler always finishes, and it offers to each channel exactly the packets that are
  -- due to it by their own fates, in the order of arrival, behind what was offered before: those
  -- routed to it, counted down unless it leads to this node, and, for the TUN device, the expired
  -- ones too.
  pub handle_ingress_batch-offered :
      (batch : List (List ℕ)) (st : RouterState Tx)
      → (st' : RouterState Tx) × (handle_ingress_batch channels lookup input_tx batch st ≡ some st')
        × ((c : Tx)
            → offered channels c st'.sends
              ≡ offered channels c st.sends
                ++ all_due channels c input_tx (fate channels lookup input_tx) batch)
  unfolding handle_ingress_batch
  handle_ingress_batch-offered batch st =
      let (st', done) = ingress_loop-total (length batch) batch st (omega arith) in
      (
        st',
        done,
        λ c. ingress_loop-offered channels lookup input_tx c (length batch) batch st st' done,
      )
