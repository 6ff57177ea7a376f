-- ===== src/Config/Defaults.antt =====
-- The default settings of src/config.rs; durations are nanoseconds.
use h3llo.Base.{ℕ, ◌*◌, min, none, Bool, true, false, String, u64_max}
use h3llo.Net.{SocketAddr, v4}
use h3llo.Config.{IoTuning, DnsTuning, H3Tuning, Tuning, LocalDns}

-- `Duration::from_millis` and `Duration::from_secs`.
abbrev pub from_millis : ℕ → ℕ
from_millis n = n * 1000000

abbrev pub from_secs : ℕ → ℕ
from_secs n = n * 1000000000

-- `socket_buffer_size.saturating_mul(1024 * 1024)` on a 64-bit machine.
abbrev pub socket_buffer_bytes : IoTuning → ℕ
socket_buffer_bytes io = min (io.socket_buffer_size * 0x100000) u64_max

abbrev pub default_io_tuning : IoTuning
default_io_tuning = record {
  packet_queue_depth = 256;
  socket_buffer_size = 16;
  tun_tx_queue_len = none;
  tun_enable_offload = false;
  udp_enable_offload = false;
  metrics_push_interval = from_millis 1000;
}

abbrev pub default_dns_tuning : DnsTuning
default_dns_tuning = record {
  dns_query_timeout = from_secs 2;
  dns_refresh_interval = from_secs 120;
  dns_query_interval = from_millis 100;
  dns_min_ttl = from_secs 300;
}

abbrev pub default_h3_tuning : H3Tuning
default_h3_tuning = record {
  h3_handshake_timeout = from_secs 5;
  h3_max_idle_timeout = from_secs 60;
  h3_keepalive_interval = from_secs 20;
  h3_cc_algorithm = "none";
  h3_enable_pacing = false;
  h3_insecure_skip_verify = false;
  h3_trusted_ca = none;
}

abbrev pub default_tuning : Tuning
default_tuning = record {
  reconcile_interval = from_secs 10;
  reconnect_backoff_min = from_secs 3;
  reconnect_backoff_max = from_secs 60;
  metrics_log_interval = from_secs 3;
  io = default_io_tuning;
  dns = default_dns_tuning;
  h3 = default_h3_tuning;
}

abbrev pub default_true : Bool
default_true = true

-- 1.1.1.1, port 53.
abbrev pub default_dns_server : SocketAddr
default_dns_server = record { ip = v4 0x01010101; port = 53 }

abbrev pub default_dns : LocalDns
default_dns = record { server = default_dns_server; bindif = none }

abbrev pub default_ifname : String
default_ifname = "h3llo0"

abbrev pub default_mtu : ℕ
default_mtu = 1291

abbrev pub max_h3_ipv4_mtu : ℕ
max_h3_ipv4_mtu = 1413
