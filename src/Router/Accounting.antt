-- ===== src/Router/Accounting.antt =====
-- The drops that the router counts under each reason are the packets that have that fate.
use h3llo.Base.{
  ℕ, zero, suc, ◌≤◌, ◌≡◌, ◌≢◌, refl, ap, List, [], ◌∷◌, Option, none, some, length, All, arith,
  Bool-cases, Option-cases, inl, inr, u64_max, saturating_add,
}
use h3llo.Net.{IpAddr}
use h3llo.Table.{RouteMatch}
use h3llo.Packet.{extract_dst_ip}
use h3llo.Metrics.{DropReason, invalid_ip_version, no_route, ttl_expired, channel_closed}
use h3llo.Channel.{batch_bytes, Channels}
use h3llo.Router.{
  RouterState, Aged, split_group, age_group, drop_batch, forward_group, ingress_loop,
  handle_ingress_batch,
}
use h3llo.Router.Fate.{
  Fate, unroutable, fate_by, fate, GoesTo, split_group-GoesTo, split_group-append, fate_good,
  fate_bad, fate_local, fate_remote,
}
use h3llo.Router.Counts.{
  counted, weight, tally, counted-record_drop, only_zero, age_group-potential, counted-send_batch,
  counted-forward_aged, tally_deliver, tally_unroutable, tally-ext, tally-append,
}

module _ {Net Tx : Type 0} (channels : Channels Tx) (lookup : IpAddr → Option (RouteMatch Net Tx))
    (input_tx : Tx) (r : DropReason) (other : r ≢ channel_closed) where
  abbrev the_fate : List ℕ → Fate Tx
  the_fate = fate channels lookup input_tx

  by_route-counted :
      (route : Option (RouteMatch Net Tx)) (dst : IpAddr) (group : List (List ℕ))
      (st : RouterState Tx)
      → lookup dst ≡ route
      → counted r st.counters ≤ u64_max
      → counted r (forward_group channels lookup input_tx dst group st).counters
        ≡ saturating_add
            (counted r st.counters)
            (tally r (fate_by channels lookup input_tx route) group)
  unfolding forward_group drop_batch
  by_route-counted none dst group st missed h =
      rw (missed, forward_group)
        (omega (
          arith,
          counted-record_drop r st.counters no_route (length group) (batch_bytes group) h,
          tally_unroutable r Tx group,
          tally-ext r (λ p. unroutable) (fate_by channels lookup input_tx none) group (λ p. refl),
        ))
  by_route-counted (some route) dst group st found h =
      elim (Bool-cases (channels.same_channel route.tx input_tx)) [
        | inl local ↦
            rw (found, forward_group)
              (rw local (
                omega (
                  arith,
                  counted-send_batch r other channels route.tx group st,
                  tally_deliver r route.tx group,
                  tally-ext r _ _ group (λ p. fate_local channels lookup input_tx route p local),
                )))
        | inr remote ↦
            let start : Aged = record { counters = st.counters; forward = []; expired = [] } in
            let (aged, small) = age_group-potential r route.tx group start h in
            rw (found, forward_group)
              (rw remote (
                omega (
                  arith,
                  counted-forward_aged r other channels route.tx input_tx (age_group start group)
                      st.sends small,
                  aged,
                  only_zero r ttl_expired,
                  tally-ext r _ _ group (λ p. fate_remote channels lookup input_tx route p remote),
                )))
      ]

  group_tally :
      (dst : IpAddr) (group : List (List ℕ))
      → All (GoesTo dst) group
      → tally r the_fate group ≡ tally r (fate_by channels lookup input_tx (lookup dst)) group
  group_tally dst [] h = refl
  group_tally dst (packet ∷ group) (e, h) = omega (
    arith,
    ap (weight r) (fate_good channels lookup input_tx packet dst e),
    group_tally dst group h,
  )

  ingress_loop-counted :
      (fuel : ℕ) (batch : List (List ℕ)) (st st' : RouterState Tx)
      → ingress_loop channels lookup input_tx fuel batch st ≡ some st'
      → counted r st.counters ≤ u64_max
      → counted r st'.counters ≡ saturating_add (counted r st.counters) (tally r the_fate batch)
  unfolding ingress_loop drop_batch
  ingress_loop-counted fuel [] st st' h small = ground arith
  ingress_loop-counted zero (packet ∷ packets) st st' h small = cc
  ingress_loop-counted (suc fuel) (packet ∷ packets) st st' h small =
      elim (Option-cases (extract_dst_ip packet)) [
        | inl bad ↦
            let next = drop_batch invalid_ip_version (packet ∷ []) st in
            let once =
              counted-record_drop r st.counters invalid_ip_version 1 (batch_bytes (packet ∷ []))
                small in
            omega (
              arith,
              once,
              ingress_loop-counted fuel packets next st' (rw (bad, ingress_loop) at h)
                  (omega (arith, once)),
              ap (weight r) (fate_bad channels lookup input_tx packet bad),
            )
        | inr (dst, good) ↦
            let group = (split_group dst packets).0 in
            let rest = (split_group dst packets).1 in
            let next = forward_group channels lookup input_tx dst (packet ∷ group) st in
            let once = by_route-counted (lookup dst) dst (packet ∷ group) st refl small in
            omega (
              arith,
              once,
              ingress_loop-counted fuel rest next st' (rw (good, ingress_loop) at h)
                  (omega (arith, once)),
              group_tally dst (packet ∷ group) (good, split_group-GoesTo dst packets),
              tally-append r the_fate (packet ∷ group) rest,
              ap (λ l. tally r the_fate (packet ∷ l)) (split_group-append dst packets),
            )
      ]

  -- For every reason but a closed channel, the ingress handler counts under it exactly the packets
  -- of the batch whose own fate is that drop: packets without a valid header, packets that no route
  -- takes, and packets that have expired; the 64-bit counter stops at its top.
  pub handle_ingress_batch-counted :
      (batch : List (List ℕ)) (st st' : RouterState Tx)
      → handle_ingress_batch channels lookup input_tx batch st ≡ some st'
      → counted r st.counters ≤ u64_max
      → counted r st'.counters
        ≡ saturating_add (counted r st.counters) (tally r (fate channels lookup input_tx) batch)
  unfolding handle_ingress_batch
  handle_ingress_batch-counted batch st st' h small =
      ingress_loop-counted (length batch) batch st st' h small
