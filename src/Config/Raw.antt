-- ===== src/Config/Raw.antt =====
-- The wire format of a peer (`RawPeer` in src/config.rs), with one optional field for each transport.
use h3llo.Base.{Option, none, some, String, Result, ok, err, ◌≡◌, ◌↔◌, refl, ap, ◌∙◌, ok-inj}
use h3llo.Config.{Peer, PeerTransport, PeerH3, PeerBare, PeerTun}

pub record RawPeer (Net : Type 0) : Type 0 where
  pub id : String
  pub h3 : Option PeerH3
  pub bare : Option PeerBare
  pub tun : PeerTun Net

-- The text of the error names the peer.
pub data RawPeerError : Type 0 where
  not_exactly_one : String → RawPeerError

-- The match on the two transports.
abbrev pub select_transport :
    String → Option PeerH3 → Option PeerBare → Result PeerTransport RawPeerError
select_transport id (some h) none = ok (PeerTransport.h3 h)
select_transport id none (some b) = ok (PeerTransport.bare b)
select_transport id (some h) (some b) = err (not_exactly_one id)
select_transport id none none = err (not_exactly_one id)

abbrev pub h3_part : PeerTransport → Option PeerH3
h3_part (PeerTransport.h3 h) = some h
h3_part (PeerTransport.bare b) = none

abbrev pub bare_part : PeerTransport → Option PeerBare
bare_part (PeerTransport.h3 h) = none
bare_part (PeerTransport.bare b) = some b

abbrev pub assemble :
    {Net : Type 0}
    → RawPeer Net
    → Result PeerTransport RawPeerError
    → Result (Peer Net) RawPeerError
assemble raw (ok t) = ok (record { id = raw.id; transport = t; tun = raw.tun })
assemble raw (err e) = err e

-- `Peer::try_from(raw)`.
unfoldable pub peer_of_raw : {Net : Type 0} → RawPeer Net → Result (Peer Net) RawPeerError
peer_of_raw raw = assemble raw (select_transport raw.id raw.h3 raw.bare)

-- `RawPeer::from(peer)`.
unfoldable pub raw_of_peer : {Net : Type 0} → Peer Net → RawPeer Net
raw_of_peer peer = record {
  id = peer.id;
  h3 = h3_part peer.transport;
  bare = bare_part peer.transport;
  tun = peer.tun;
}

from_parts :
    {Net : Type 0} (id : String) (h : Option PeerH3) (b : Option PeerBare) (tun : PeerTun Net)
    (peer : Peer Net)
    → assemble (record { id = id; h3 = h; bare = b; tun = tun }) (select_transport id h b) ≡ ok peer
    → ◌≡◌ {A = RawPeer Net} (record { id = id; h3 = h; bare = b; tun = tun }) (raw_of_peer peer)
unfolding raw_of_peer
from_parts id (some h) none tun peer e = ap raw_of_peer (ok-inj _ _ e)
from_parts id none (some b) tun peer e = ap raw_of_peer (ok-inj _ _ e)
from_parts id (some h) (some b) tun peer e = cc
from_parts id none none tun peer e = cc

read_back :
    {Net : Type 0} (id : String) (t : PeerTransport) (tun : PeerTun Net)
    → assemble
        (record { id = id; h3 = h3_part t; bare = bare_part t; tun = tun })
        (select_transport id (h3_part t) (bare_part t))
      ≡ ok (record { id = id; transport = t; tun = tun })
read_back id (PeerTransport.h3 h) tun = refl
read_back id (PeerTransport.bare b) tun = refl

to_parts : {Net : Type 0} (peer : Peer Net) → peer_of_raw (raw_of_peer peer) ≡ ok peer
unfolding raw_of_peer peer_of_raw
to_parts peer = read_back peer.id peer.transport peer.tun

-- A wire form is that of a peer exactly if it reads back as this peer: reading inverts writing, and
-- whatever is read is written back as it was.
pub peer_of_raw_iff :
    {Net : Type 0} (raw : RawPeer Net) (peer : Peer Net)
    → (peer_of_raw raw ≡ ok peer) ↔ (raw ≡ raw_of_peer peer)
unfolding peer_of_raw
peer_of_raw_iff raw peer =
    (λ h. from_parts raw.id raw.h3 raw.bare raw.tun peer h, λ e. ap peer_of_raw e ∙ to_parts peer)
