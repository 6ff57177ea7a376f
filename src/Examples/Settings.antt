-- ===== src/Examples/Settings.antt =====
-- A configuration with an HTTP/3 peer and a bare peer, and the endpoints in it; the prefixes are
-- numbers.
use h3llo.Base.{ℕ, ◌==◌, List, [], ◌∷◌, none, some, true, String, ◌≡◌, refl, ok, if◌then◌else◌}
use h3llo.Net.{v4}
use h3llo.Config.{Config, UdpEndpoint, H3Endpoint, ApiEndpoint, Peer, h3, bare}
use h3llo.Config.Defaults.{default_tuning}
use h3llo.Base.Text.{trim, trim_left, trim_right}
use h3llo.Config.Validation.{check_tuning, check_allowed, check_peers, validate_peers, validate}

abbrev tunnel : H3Endpoint
tunnel = record { host = "example.org"; port = 8443; path = "/h3llo" }

abbrev remote : UdpEndpoint
remote = record { host = "192.0.2.7"; port = 6635 }

abbrev admin : ApiEndpoint
admin = record { host = "127.0.0.1"; port = 80; path = "/" }

abbrev over_h3 : Peer ℕ
over_h3 = record {
  id = "a";
  transport = h3 (record {
    endpoint = some tunnel;
    token = "correct-horse";
    bindif = none;
    sni = some "example.org";
  });
  tun = record { allowed_ips = 10 ∷ 11 ∷ [] };
}

abbrev over_udp : Peer ℕ
over_udp = record {
  id = "b";
  transport = bare (record { endpoint = remote; bindif = none });
  tun = record { allowed_ips = 12 ∷ [] };
}

abbrev peers : List (Peer ℕ)
peers = over_h3 ∷ over_udp ∷ []

abbrev config : Config ℕ
config = record {
  locals = record {
    table = true;
    dns = record { server = record { ip = v4 0x01010101; port = 53 }; bindif = none };
    h3 = none;
    bare = none;
    api = some (record { listen = admin });
    tun = record { ifname = "h3llo0"; addrs = 9 ∷ []; mtu = 1391 };
  };
  tuning = default_tuning;
  peers = peers;
}

abbrev net_to_string : ℕ → String
net_to_string net = "net"

validated : validate ◌==◌ net_to_string config ≡ ok tt
unfolding validate check_tuning validate_peers check_peers trim trim_right trim_left check_allowed
validated = refl

-- A port in digits, for the ports here.
abbrev decimal : ℕ → String
decimal port = if port == 80 then "80" else "8443"
