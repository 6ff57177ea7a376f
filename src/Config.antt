-- ===== src/Config.antt =====
-- The configuration (src/config.rs): its data types. The field `local` of `Config` is `locals`. `Net` stands for the `IpNet` of the crate
-- `ipnet`, durations are nanoseconds.
pub mod Defaults
pub mod Raw
pub mod Uri
pub mod Validation
pub mod Valid
pub mod Accepted
pub mod Whole
use h3llo.Base.{ℕ, List, Option, String, Bool}
use h3llo.Net.{SocketAddr}

pub record UdpEndpoint : Type 0 where
  pub host : String
  pub port : ℕ

pub record H3Endpoint : Type 0 where
  pub host : String
  pub port : ℕ
  pub path : String

pub record PeerH3 : Type 0 where
  pub endpoint : Option H3Endpoint
  pub token : String
  pub bindif : Option String
  pub sni : Option String

pub record PeerBare : Type 0 where
  pub endpoint : UdpEndpoint
  pub bindif : Option String

pub data PeerTransport : Type 0 where
  h3 : PeerH3 → PeerTransport
  bare : PeerBare → PeerTransport

pub record PeerTun (Net : Type 0) : Type 0 where
  pub allowed_ips : List Net

pub record Peer (Net : Type 0) : Type 0 where
  pub id : String
  pub transport : PeerTransport
  pub tun : PeerTun Net

pub record LocalTun (Net : Type 0) : Type 0 where
  pub ifname : String
  pub addrs : List Net
  pub mtu : ℕ

pub record LocalH3 : Type 0 where
  pub listen : H3Endpoint
  pub cert : String
  pub key : String

pub record LocalBare : Type 0 where
  pub listen : UdpEndpoint

pub record LocalDns : Type 0 where
  pub server : SocketAddr
  pub bindif : Option String

pub record ApiEndpoint : Type 0 where
  pub host : String
  pub port : ℕ
  pub path : String

pub record LocalApi : Type 0 where
  pub listen : ApiEndpoint

pub record Local (Net : Type 0) : Type 0 where
  pub table : Bool
  pub dns : LocalDns
  pub h3 : Option LocalH3
  pub bare : Option LocalBare
  pub api : Option LocalApi
  pub tun : LocalTun Net

pub record IoTuning : Type 0 where
  pub packet_queue_depth : ℕ
  pub socket_buffer_size : ℕ
  pub tun_tx_queue_len : Option ℕ
  pub tun_enable_offload : Bool
  pub udp_enable_offload : Bool
  pub metrics_push_interval : ℕ

pub record DnsTuning : Type 0 where
  pub dns_query_timeout : ℕ
  pub dns_refresh_interval : ℕ
  pub dns_query_interval : ℕ
  pub dns_min_ttl : ℕ

pub record H3Tuning : Type 0 where
  pub h3_handshake_timeout : ℕ
  pub h3_max_idle_timeout : ℕ
  pub h3_keepalive_interval : ℕ
  pub h3_cc_algorithm : String
  pub h3_enable_pacing : Bool
  pub h3_insecure_skip_verify : Bool
  pub h3_trusted_ca : Option String

pub record Tuning : Type 0 where
  pub reconcile_interval : ℕ
  pub reconnect_backoff_min : ℕ
  pub reconnect_backoff_max : ℕ
  pub metrics_log_interval : ℕ
  pub io : IoTuning
  pub dns : DnsTuning
  pub h3 : H3Tuning

pub record Config (Net : Type 0) : Type 0 where
  pub locals : Local Net
  pub tuning : Tuning
  pub peers : List (Peer Net)
