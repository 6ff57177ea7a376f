-- ===== src/Pool.antt =====
-- The entry of a peer in the orchestrator's pool (src/orch.rs): its connections, the addresses that
-- its host name has, and the dials. A hash set of addresses is a list in the order of iteration, a
-- hash map by address a function; whether a channel is closed is asked of the environment.
pub mod Prune
pub mod Connect
use h3llo.Base.{
  ℕ, List, [], ◌∷◌, Option, none, some, Bool, true, false, not, ◌&&◌, String, str_eq, if◌then◌else◌,
  ◌==◌, ltb, retain, any,
}
use mathlib.Core.Option
use h3llo.Net.{IpAddr, SocketAddr, same_addr}
use h3llo.Config.{UdpEndpoint, H3Endpoint, Peer, PeerTransport}
use h3llo.Metrics.{Metrics}
use h3llo.Channel.{Channels}
use h3llo.Dial.{DialState, new_in_flight}

-- `Endpoint` of src/events.rs.
pub data Endpoint : Type 0 where
  udp : UdpEndpoint → Endpoint
  h3 : H3Endpoint → Endpoint

-- `==` on endpoints.
unfoldable pub same_endpoint : Endpoint → Endpoint → Bool
same_endpoint (udp a) (udp b) = str_eq a.host b.host && a.port == b.port
same_endpoint (h3 a) (h3 b) = str_eq a.host b.host && (a.port == b.port && str_eq a.path b.path)
same_endpoint _ _ = false

pub record ActiveConn (Tx : Type 0) : Type 0 where
  pub endpoint : Option Endpoint
  pub dest : SocketAddr
  pub tx : Tx
  pub rx_metrics : Option (Metrics SocketAddr)
  pub tx_metrics : Option (Metrics SocketAddr)

abbrev pub Dials : Type 0
Dials = IpAddr → Option DialState

pub record PeerEntry (Net Tx : Type 0) : Type 0 where
  pub config : Peer Net
  pub bounds : List (ActiveConn Tx)
  pub resolved_ips : List IpAddr
  pub dials : Dials

-- `resolved_ips.contains(ip)`.
abbrev pub contains : List IpAddr → IpAddr → Bool
contains ips ip = any (λ other. same_addr other ip) ips

-- `bounds.first().map(|b| &b.tx)`.
abbrev pub first_tx : {Tx : Type 0} → List (ActiveConn Tx) → Option Tx
first_tx [] = none
first_tx (bound ∷ bounds) = some bound.tx

-- `config_ep.as_ref() == Some(endpoint)`.
abbrev pub is_configured : Option Endpoint → Endpoint → Bool
is_configured none endpoint = false
is_configured (some config) endpoint = same_endpoint config endpoint

abbrev pub is_current : Option Endpoint → List IpAddr → IpAddr → Option Endpoint → Bool
is_current config ips ip none = true
is_current config ips ip (some endpoint) = is_configured config endpoint && contains ips ip

abbrev pub first_changed : {Tx : Type 0} → Channels Tx → Option Tx → Option Tx → Bool
first_changed channels (some old) (some new) = not (channels.same_channel old new)
first_changed channels none none = false
first_changed channels _ _ = true

module _ {Net Tx : Type 0} where
  abbrev pub new_entry : Peer Net → PeerEntry Net Tx
  new_entry config = record { config = config; bounds = []; resolved_ips = []; dials = λ _. none }

  unfoldable pub preferred_tx : PeerEntry Net Tx → Option Tx
  preferred_tx e = first_tx e.bounds

  unfoldable pub config_endpoint : PeerEntry Net Tx → Option Endpoint
  config_endpoint e = elim e.config.transport [
    | PeerTransport.bare b ↦ some (udp b.endpoint)
    | PeerTransport.h3 h ↦ Option.map Endpoint.h3 h.endpoint
  ]

  -- The test under which `prune` keeps a connection.
  unfoldable pub keeps : (Tx → Bool) → PeerEntry Net Tx → ActiveConn Tx → Bool
  keeps is_closed e bound =
      not (is_closed bound.tx)
      && is_current (config_endpoint e) e.resolved_ips bound.dest.ip bound.endpoint

  -- `PeerEntry::prune`: the entry that is left, and whether the preferred channel changed.
  unfoldable pub prune : Channels Tx → (Tx → Bool) → PeerEntry Net Tx → PeerEntry Net Tx × Bool
  prune channels is_closed e =
      let e' : PeerEntry Net Tx = record e {
        bounds = retain (keeps is_closed e) e.bounds;
        dials = λ ip. if contains e.resolved_ips ip then e.dials ip else none;
      } in
      (e', first_changed channels (preferred_tx e) (preferred_tx e'))

  abbrev pub is_covered : PeerEntry Net Tx → IpAddr → Bool
  is_covered e ip = any (λ bound. same_addr bound.dest.ip ip) e.bounds

-- No dial to the address is in flight, and its backoff has run out.
abbrev pub may_dial : ℕ → Option DialState → Bool
may_dial now none = true
may_dial now (some s) =
    if s.in_flight then false else if ltb now s.next_allowed_at then false else true

abbrev pub mark : ℕ → Option DialState → DialState
mark now none = new_in_flight now
mark now (some s) = record s { in_flight = true }

-- The dial states after a dial to each of the addresses.
unfoldable pub mark_in_flight : ℕ → List IpAddr → Dials → Dials
mark_in_flight now [] dials = dials
mark_in_flight now (ip ∷ ips) dials =
    mark_in_flight now ips
      (λ other. if same_addr ip other then some (mark now (dials ip)) else dials other)

module _ {Net Tx : Type 0} where
  unfoldable pub uncovered : ℕ → PeerEntry Net Tx → List IpAddr
  uncovered now e = retain (λ ip. not (is_covered e ip) && may_dial now (e.dials ip)) e.resolved_ips

  -- `PeerEntry::try_connect`: the entry that is left, and the addresses that are dialed, each by a
  -- task of its own.
  unfoldable pub try_connect : ℕ → PeerEntry Net Tx → PeerEntry Net Tx × List IpAddr
  unfolding uncovered
  try_connect now e =
      let ips = uncovered now e in (record e { dials = mark_in_flight now ips e.dials }, ips)
