-- ===== src/Router/Fate.antt =====
-- What is to become of a single packet that a transport hands to the router, without batches and
-- groups; and the facts on groups that relate the two.
use h3llo.Base.{
  ℕ, zero, suc, ◌≤◌, ◌≡◌, refl, ap, List, [], ◌∷◌, ◌++◌, Option, none, some, true, false,
  if◌then◌else◌, length, All, arith, Bool-cases, Option-cases, inl, inr,
}
use h3llo.Net.{IpAddr, same_addr, same_addr_iff}
use h3llo.Table.{RouteMatch}
use h3llo.Packet.{extract_dst_ip, decrement_ttl}
use h3llo.Channel.{Channels}
use h3llo.Router.{split_group}

-- A packet is dropped for a bad header, dropped for want of a route, passed to a channel as it then
-- reads, or expired, as it then reads.
pub data Fate (Tx : Type 0) : Type 0 where
  invalid : Fate Tx
  unroutable : Fate Tx
  deliver : Tx → List ℕ → Fate Tx
  expire : List ℕ → Fate Tx

abbrev pub aged_fate : {Tx : Type 0} → Tx → Option ℕ → List ℕ → Fate Tx
aged_fate tx none packet = invalid
aged_fate tx (some zero) packet = expire packet
aged_fate tx (some (suc zero)) packet = expire packet
aged_fate tx (some (suc (suc ttl))) packet = deliver tx packet

module _ {Net Tx : Type 0} (channels : Channels Tx) (lookup : IpAddr → Option (RouteMatch Net Tx))
    (input_tx : Tx) where
  -- The fate of a packet by its route: packets for this node keep their hop limit.
  abbrev pub fate_by : Option (RouteMatch Net Tx) → List ℕ → Fate Tx
  fate_by none packet = unroutable
  fate_by (some route) packet =
      if channels.same_channel route.tx input_tx
      then deliver route.tx packet
      else aged_fate route.tx (decrement_ttl packet).0 (decrement_ttl packet).1

  abbrev pub fate : List ℕ → Fate Tx
  fate packet = elim (extract_dst_ip packet) [
    | none ↦ invalid
    | some dst ↦ fate_by (lookup dst) packet
  ]

  pub fate_good :
      (packet : List ℕ) (dst : IpAddr)
      → extract_dst_ip packet ≡ some dst
      → fate packet ≡ fate_by (lookup dst) packet
  fate_good packet dst e = rw (e, fate) refl

  pub fate_bad : (packet : List ℕ) → extract_dst_ip packet ≡ none → fate packet ≡ invalid
  fate_bad packet e = rw (e, fate) refl

  pub fate_local :
      (route : RouteMatch Net Tx) (packet : List ℕ)
      → channels.same_channel route.tx input_tx ≡ true
      → deliver route.tx packet ≡ fate_by (some route) packet
  fate_local route packet local = rw local refl

  pub fate_remote :
      (route : RouteMatch Net Tx) (packet : List ℕ)
      → channels.same_channel route.tx input_tx ≡ false
      → aged_fate route.tx (decrement_ttl packet).0 (decrement_ttl packet).1
        ≡ fate_by (some route) packet
  fate_remote route packet other = rw other refl

abbrev pub GoesTo : IpAddr → List ℕ → Type 0
GoesTo dst packet = extract_dst_ip packet ≡ some dst

pub split_group-GoesTo :
    (dst : IpAddr) (packets : List (List ℕ)) → All (GoesTo dst) (split_group dst packets).0
unfolding split_group
split_group-GoesTo dst [] = tt
split_group-GoesTo dst (packet ∷ packets) = elim (Option-cases (extract_dst_ip packet)) [
  | inl h ↦ rw (h, split_group) tt
  | inr (other, h) ↦ elim (Bool-cases (same_addr other dst)) [
    | inl same ↦
        rw (h, split_group)
          (rw same
            (rw h (ap some ((same_addr_iff other dst).0 same)), split_group-GoesTo dst packets))
    | inr differs ↦ rw (h, split_group) (rw differs tt)
  ]
]

pub split_group-append :
    (dst : IpAddr) (packets : List (List ℕ))
    → (split_group dst packets).0 ++ (split_group dst packets).1 ≡ packets
unfolding split_group
split_group-append dst [] = refl
split_group-append dst (packet ∷ packets) = ground (arith, split_group-append dst packets)

pub length-split_group :
    (dst : IpAddr) (packets : List (List ℕ)) → length (split_group dst packets).1 ≤ length packets
unfolding split_group
length-split_group dst [] = omega arith
length-split_group dst (packet ∷ packets) = ground (arith, length-split_group dst packets)
