-- ===== src/Peers.antt =====
-- The peers of the orchestrator (src/orch.rs): the hash map from the peers' ids to their entries as
-- a list of pairs in the order of iteration, and what is collected from it for the other actors. A
-- hash set that is collected is a list in which an element may stand twice.
use Prim.Native.Char.{Char, code}
use h3llo.Base.{
  ℕ, List, [], ◌∷◌, ◌++◌, Option, none, some, String, str_eq, if◌then◌else◌, not, ◌==◌, map, retain,
}
use mathlib.Core.Option
use h3llo.Net.{IpAddr}
use h3llo.Config.{Peer, PeerTransport}
use h3llo.Pool.{PeerEntry, preferred_tx}

-- `trim_start_matches` and `trim_end_matches` with a character.
unfoldable pub trim_start : ℕ → String → String
trim_start c String.[] = String.[]
trim_start c (String.◌∷◌ d s) =
    let rest = trim_start c s in if code d == c then rest else String.◌∷◌ d s

abbrev pub cons_trimmed : ℕ → Char → String → String
cons_trimmed c d String.[] = if code d == c then String.[] else String.◌∷◌ d String.[]
cons_trimmed c d (String.◌∷◌ e s) = String.◌∷◌ d (String.◌∷◌ e s)

unfoldable pub trim_end : ℕ → String → String
trim_end c String.[] = String.[]
trim_end c (String.◌∷◌ d s) = cons_trimmed c d (trim_end c s)

-- `[` is 91 and `]` is 93.
unfoldable pub strip_ipv6_brackets : String → String
strip_ipv6_brackets host = trim_end 93 (trim_start 91 host)

module _ {Net : Type 0} where
  unfoldable pub peer_dns_hostname : Peer Net → Option String
  peer_dns_hostname peer = elim peer.transport [
    | PeerTransport.bare b ↦ some b.endpoint.host
    | PeerTransport.h3 h ↦ Option.map (λ ep. strip_ipv6_brackets ep.host) h.endpoint
  ]

  -- An iterator with `filter_map`.
  unfoldable pub collect_hostnames : List (Peer Net) → List String
  collect_hostnames [] = []
  collect_hostnames (peer ∷ peers) =
      let rest = collect_hostnames peers in
      elim (peer_dns_hostname peer) [ none ↦ rest | some host ↦ host ∷ rest ]

  unfoldable pub collect_allowed_ips : List (Peer Net) → List Net
  collect_allowed_ips [] = []
  collect_allowed_ips (peer ∷ peers) = peer.tun.allowed_ips ++ collect_allowed_ips peers

  -- The ids and tokens of the peers with HTTP/3.
  unfoldable pub collect_tokens : List (Peer Net) → List (String × String)
  collect_tokens [] = []
  collect_tokens (peer ∷ peers) =
      let rest = collect_tokens peers in
      elim peer.transport [
        | PeerTransport.h3 h ↦ (peer.id, h.token) ∷ rest
        | PeerTransport.bare b ↦ rest
      ]

abbrev pub bare_ips : PeerTransport → List IpAddr → List IpAddr
bare_ips (PeerTransport.bare b) ips = ips
bare_ips (PeerTransport.h3 h) ips = []

-- `HashMap<String, PeerEntry>`.
abbrev pub PeerMap : (Net Tx : Type 0) → Type 0
PeerMap Net Tx = List (String × PeerEntry Net Tx)

module _ {Net Tx : Type 0} where
  -- `peers.get(id)`.
  unfoldable pub get : PeerMap Net Tx → String → Option (PeerEntry Net Tx)
  get [] id = none
  get ((key, e) ∷ peers) id = if str_eq key id then some e else get peers id

  -- The map after a write through `peers.get_mut(id)`.
  unfoldable pub modify :
      PeerMap Net Tx → String → (PeerEntry Net Tx → PeerEntry Net Tx) → PeerMap Net Tx
  modify [] id f = []
  modify ((key, e) ∷ peers) id f =
      let rest = modify peers id f in if str_eq key id then (key, f e) ∷ peers else (key, e) ∷ rest

  -- `peers.remove(id)`.
  unfoldable pub remove : PeerMap Net Tx → String → PeerMap Net Tx
  remove peers id = retain (λ p. not (str_eq p.0 id)) peers

  unfoldable pub remove_all : PeerMap Net Tx → List String → PeerMap Net Tx
  remove_all peers [] = peers
  remove_all peers (id ∷ ids) = remove_all (remove peers id) ids

  abbrev pub peer_configs : PeerMap Net Tx → List (Peer Net)
  peer_configs peers = map (λ p. p.1.config) peers

  abbrev pub preferred_of : Option (PeerEntry Net Tx) → Option Tx
  preferred_of none = none
  preferred_of (some e) = preferred_tx e

  -- `peer_txs`, by the id.
  unfoldable pub preferred_txs : PeerMap Net Tx → String → Option Tx
  preferred_txs peers id = preferred_of (get peers id)

  -- The addresses of the peers with bare UDP.
  unfoldable pub accepted_ips : PeerMap Net Tx → List IpAddr
  accepted_ips [] = []
  accepted_ips ((key, e) ∷ peers) = bare_ips e.config.transport e.resolved_ips ++ accepted_ips peers
