-- ===== src/Router.antt =====
-- The two packet handlers of the router actor (src/router.rs). Their effects are the counters and
-- the trace of the batches that they send.
pub mod Fate
pub mod Offers
pub mod Order
pub mod Counts
pub mod Accounting
pub mod Loop
pub mod Routed
use h3llo.Base.{
  ℕ, zero, suc, List, [], ◌∷◌, ◌++◌, Option, none, some, Bool, true, false, if◌then◌else◌, length,
}
use h3llo.Net.{IpAddr, same_addr}
use h3llo.Table.{RouteMatch}
use h3llo.Packet.{extract_dst_ip, decrement_ttl}
use h3llo.Metrics.{
  Counters, DropReason, record_drop, invalid_ip_version, no_route, ttl_expired, channel_closed,
}
use h3llo.Channel.{
  Sent, Channels, batch_stats, batch_bytes, send_with_backpressure, record_events, send_and_record,
}

pub record RouterState (Tx : Type 0) : Type 0 where
  pub counters : Counters
  pub sends : List (Sent Tx)

-- The packets at the front of a batch that go to one destination, and the rest of the batch: the
-- scan for `group_end`, and `drain`.
unfoldable pub split_group : IpAddr → List (List ℕ) → List (List ℕ) × List (List ℕ)
split_group dst [] = ([], [])
split_group dst (packet ∷ packets) =
    let (group, rest) = split_group dst packets in
    elim (extract_dst_ip packet) [
      | none ↦ ([], packet ∷ packets)
      | some other ↦ if same_addr other dst then (packet ∷ group, rest) else ([], packet ∷ packets)
    ]

-- The loop that counts a group down: what is to be forwarded, and what has expired.
pub record Aged : Type 0 where
  pub counters : Counters
  pub forward : List (List ℕ)
  pub expired : List (List ℕ)

unfoldable pub push_aged : Option ℕ → List ℕ → Aged → Aged
push_aged none packet a = record a {
  counters = record_drop a.counters invalid_ip_version 1 (length packet);
}
push_aged (some zero) packet a = record a { expired = a.expired ++ packet ∷ [] }
push_aged (some (suc zero)) packet a = record a { expired = a.expired ++ packet ∷ [] }
push_aged (some (suc (suc ttl))) packet a = record a { forward = a.forward ++ packet ∷ [] }

unfoldable pub age_group : Aged → List (List ℕ) → Aged
age_group a [] = a
age_group a (packet ∷ packets) =
    let (old, packet') = decrement_ttl packet in age_group (push_aged old packet' a) packets

unfoldable pub drop_batch :
    {Tx : Type 0} → DropReason → List (List ℕ) → RouterState Tx → RouterState Tx
drop_batch reason batch st = record st {
  counters = record_drop st.counters reason (length batch) (batch_bytes batch);
}

-- `if !batch.is_empty()` before a send.
abbrev pub send_unless_empty :
    {Tx : Type 0}
    → (List (List ℕ) → RouterState Tx → RouterState Tx)
    → List (List ℕ)
    → RouterState Tx
    → RouterState Tx
send_unless_empty send [] st = st
send_unless_empty send (packet ∷ packets) st = send (packet ∷ packets) st

module _ {Tx : Type 0} (channels : Channels Tx) where
  -- `counters.send_and_record(tx, batch, ..).await`, on the state.
  unfoldable pub send_batch : Tx → List (List ℕ) → RouterState Tx → RouterState Tx
  send_batch tx batch st =
      let answer = channels.answer st.sends tx batch in
      record {
        counters = (send_and_record st.counters answer (length batch) (batch_bytes batch)).0;
        sends = st.sends ++ record { channel = tx; batch = batch; answer = answer } ∷ [];
      }

  -- The expired packets of a group: counted as drops, and handed to the TUN device.
  unfoldable pub send_expired : Tx → List (List ℕ) → RouterState Tx → RouterState Tx
  send_expired input_tx expired st =
      let answer = channels.answer st.sends input_tx expired in
      let dropped = record_drop st.counters ttl_expired (length expired) (batch_bytes expired) in
      let (events, sent) = send_with_backpressure answer in
      let waited = record_events dropped events in
      record {
        counters =
            if sent
            then waited
            else record_drop waited channel_closed (length expired) (batch_bytes expired);
        sends = st.sends ++ record { channel = input_tx; batch = expired; answer = answer } ∷ [];
      }

  unfoldable pub forward_aged : Tx → Tx → Aged → List (Sent Tx) → RouterState Tx
  forward_aged tx input_tx a sends = send_unless_empty (send_expired input_tx) a.expired (
      send_unless_empty (send_batch tx) a.forward (record { counters = a.counters; sends = sends }))

module _ {Net Tx : Type 0} (channels : Channels Tx)
    (lookup : IpAddr → Option (RouteMatch Net Tx)) where
  -- A batch from the TUN device: the first packet decides for all.
  unfoldable pub handle_output_batch : List (List ℕ) → RouterState Tx → RouterState Tx
  handle_output_batch [] st = st
  handle_output_batch (first ∷ batch) st = elim (extract_dst_ip first) [
    | none ↦ drop_batch invalid_ip_version (first ∷ batch) st
    | some dest ↦ elim (lookup dest) [
      | none ↦ drop_batch no_route (first ∷ batch) st
      | some route ↦ send_batch channels route.tx (first ∷ batch) st
    ]
  ]

  -- The body of the ingress loop for one group of packets to `dst`.
  unfoldable pub forward_group : Tx → IpAddr → List (List ℕ) → RouterState Tx → RouterState Tx
  unfolding forward_aged
  forward_group input_tx dst group st = elim (lookup dst) [
    | none ↦ drop_batch no_route group st
    | some route ↦
        if channels.same_channel route.tx input_tx
        then send_batch channels route.tx group st
        else forward_aged channels route.tx input_tx
            (age_group (record { counters = st.counters; forward = []; expired = [] }) group)
            st.sends
  ]

  -- `while !batch.is_empty()`, on fuel; `none` means that the fuel ran out.
  unfoldable pub ingress_loop : Tx → ℕ → List (List ℕ) → RouterState Tx → Option (RouterState Tx)
  ingress_loop input_tx fuel [] st = some st
  ingress_loop input_tx zero (packet ∷ packets) st = none
  ingress_loop input_tx (suc fuel) (packet ∷ packets) st = elim (extract_dst_ip packet) [
    | none ↦ ingress_loop input_tx fuel packets (drop_batch invalid_ip_version (packet ∷ []) st)
    | some dst ↦
        let (group, rest) = split_group dst packets in
        ingress_loop input_tx fuel rest (forward_group input_tx dst (packet ∷ group) st)
  ]

  -- A batch from the transports: one round at most for each packet.
  unfoldable pub handle_ingress_batch :
      Tx → List (List ℕ) → RouterState Tx → Option (RouterState Tx)
  handle_ingress_batch input_tx batch st = ingress_loop input_tx (length batch) batch st
