-- ===== src/Examples/Tables.antt =====
-- Two peers and a local address, on the list of prefixes.
use h3llo.Base.{
  ℕ, List, [], ◌∷◌, Option, none, some, String, str_eq, true, if◌then◌else◌, ◌≡◌, ◌↔◌, refl, ok,
}
use h3llo.Net.{v4}
use h3llo.Net.Model.{Prefix, prefixes, prefix_list}
use h3llo.Config.{Peer, LocalTun, bare}
use h3llo.Table.{RouteEntry, make, insert, insert_peers, insert_allowed, insert_local, lookup}
use h3llo.Table.Claims.{owner, peer_claims, make-owner}
use h3llo.Table.Conflicts.{IsConsistent, make_iff}
use h3llo.Table.Lookup.{IsLongestMatch, lookup-IsLongestMatch}

abbrev pub peer : String → List Prefix → Peer Prefix
peer id allowed = record {
  id = id;
  transport =
      bare (record { endpoint = record { host = "192.0.2.1"; port = 5353 }; bindif = none });
  tun = record { allowed_ips = allowed };
}

-- 10.0.0.0/16 and 10.0.0.0/24.
abbrev pub wide : Prefix
wide = record { is_v4 = true; bits = 0x0a00; len = 16 }

abbrev pub narrow : Prefix
narrow = record { is_v4 = true; bits = 0x0a0000; len = 24 }

abbrev pub peers : List (Peer Prefix)
peers = peer "a" (wide ∷ wide ∷ []) ∷ peer "b" (narrow ∷ []) ∷ peer "c" (narrow ∷ []) ∷ []

-- The senders are numbered; peer "c" has none.
abbrev pub peer_txs : String → Option ℕ
peer_txs id = if str_eq id "a" then some 1 else if str_eq id "b" then some 2 else none

-- 10.0.0.9/32
abbrev pub local_tun : LocalTun Prefix
local_tun = record {
  ifname = "h3llo0";
  addrs = record { is_v4 = true; bits = 0x0a000009; len = 32 } ∷ [];
  mtu = 1291;
}

abbrev pub table : List (Prefix × RouteEntry ℕ)
table =
    (record { is_v4 = true; bits = 0x0a000009; len = 32 }, record { peer_id = "__local__"; tx = 0 })
    ∷ (narrow, record { peer_id = "b"; tx = 2 })
    ∷ (wide, record { peer_id = "a"; tx = 1 })
    ∷ []

pub built : make prefixes prefix_list peers peer_txs local_tun 0 ≡ ok table
unfolding make insert insert_peers insert_allowed insert_local
built = refl

longest :
    lookup prefixes prefix_list table (v4 0x0a00002a)
    ≡ some (record { prefix = narrow; peer_id = "b"; tx = 2 })
unfolding lookup
longest = refl

make-owner_example :
    prefix_list.exact_match table wide ≡ owner prefixes peers peer_txs local_tun 0 wide
make-owner_example = make-owner prefixes prefix_list peers peer_txs local_tun 0 table wide built

make_iff_example :
    ((t : List (Prefix × RouteEntry ℕ)) × (make prefixes prefix_list peers peer_txs local_tun 0
        ≡ ok t))
    ↔ IsConsistent prefixes (peer_claims peer_txs peers)
make_iff_example = make_iff prefixes prefix_list peers peer_txs local_tun 0

lookup-IsLongestMatch_example :
    IsLongestMatch prefixes
      (owner prefixes peers peer_txs local_tun 0)
      (v4 0x0a00002a)
      (lookup prefixes prefix_list table (v4 0x0a00002a))
lookup-IsLongestMatch_example =
    lookup-IsLongestMatch prefixes prefix_list peers peer_txs local_tun 0 table (v4 0x0a00002a)
      built
