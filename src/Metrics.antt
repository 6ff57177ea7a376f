-- ===== src/Metrics.antt =====
-- Packet and congestion counters (src/metrics.rs): the data model, and the recording methods of
-- `CongestionStats`, `PktCounters` and `Counters`. A duration is its number of nanoseconds.
pub mod Laws
use h3llo.Base.{ℕ, ◌+◌, ◌*◌, ◌-◌, ◌^◌, min, Option, String, saturating_add}
use mathlib.Core.Logic.{ite}

pub data Source : Type 0 where
  tun bare_udp http3 router : Source

pub data Direction : Type 0 where
  rx tx : Direction

pub data DropReason : Type 0 where
  oversize disallowed_source send_error quic_error channel_closed invalid_ip_version : DropReason
  invalid_framing no_route no_peer_channel no_headroom queue_full ttl_expired : DropReason

unfoldable pub DropReason-discrete : Discrete DropReason
DropReason-discrete = hlevel

-- `Duration::MAX`, in nanoseconds.
abbrev pub duration_max : ℕ
duration_max = (2 ^ 64 - 1) * 1_000_000_000 + 999_999_999

abbrev pub duration_saturating_add : ℕ → ℕ → ℕ
duration_saturating_add a b = min (a + b) duration_max

pub record CongestionStats : Type 0 where
  pub queue_full_count : ℕ
  pub queue_full_duration : ℕ
  pub would_block_count : ℕ
  pub would_block_duration : ℕ

unfoldable pub record_queue_full : CongestionStats → ℕ → CongestionStats
record_queue_full c wait = record c {
  queue_full_count = saturating_add c.queue_full_count 1;
  queue_full_duration = duration_saturating_add c.queue_full_duration wait;
}

unfoldable pub record_would_block : CongestionStats → ℕ → CongestionStats
record_would_block c wait = record c {
  would_block_count = saturating_add c.would_block_count 1;
  would_block_duration = duration_saturating_add c.would_block_duration wait;
}

pub record PktCounters : Type 0 where
  pub batches : ℕ
  pub packets : ℕ
  pub bytes : ℕ

-- `PktCounters::record`.
unfoldable pub count : PktCounters → ℕ → ℕ → PktCounters
count c packets bytes = record {
  batches = saturating_add c.batches 1;
  packets = saturating_add c.packets packets;
  bytes = saturating_add c.bytes bytes;
}

-- `drop_reasons` is an `EnumMap`: a counter for each reason.
pub record Stats : Type 0 where
  pub succeeded : PktCounters
  pub dropped : PktCounters
  pub drop_reasons : DropReason → PktCounters
  pub congestion : CongestionStats

pub record Counters : Type 0 where
  pub source : Source
  pub direction : Direction
  pub stats : Stats

abbrev pub zero_counters : PktCounters
zero_counters = record { batches = 0; packets = 0; bytes = 0 }

abbrev pub zero_congestion : CongestionStats
zero_congestion = record {
  queue_full_count = 0;
  queue_full_duration = 0;
  would_block_count = 0;
  would_block_duration = 0;
}

-- `Counters::new`.
abbrev pub new_counters : Source → Direction → Counters
new_counters source direction = record {
  source = source;
  direction = direction;
  stats = record {
    succeeded = zero_counters;
    dropped = zero_counters;
    drop_reasons = λ _. zero_counters;
    congestion = zero_congestion;
  };
}

unfoldable pub record_success : Counters → ℕ → ℕ → Counters
unfolding count
record_success c packets bytes = record c {
  stats = record (c.stats) { succeeded = count c.stats.succeeded packets bytes };
}

abbrev pub count_reason : (DropReason → PktCounters) → DropReason → ℕ → ℕ → DropReason → PktCounters
count_reason reasons reason packets bytes r =
    ite (DropReason-discrete r reason) (count (reasons r) packets bytes) (reasons r)

unfoldable pub record_drop : Counters → DropReason → ℕ → ℕ → Counters
unfolding count
record_drop c reason packets bytes = record c {
  stats = record (c.stats) {
    dropped = count c.stats.dropped packets bytes;
    drop_reasons = count_reason c.stats.drop_reasons reason packets bytes;
  };
}

-- `Counters::record_queue_full`.
unfoldable pub record_wait : Counters → ℕ → Counters
unfolding record_queue_full
record_wait c wait = record c {
  stats = record (c.stats) { congestion = record_queue_full c.stats.congestion wait };
}

pub record Labels (SocketAddr : Type 0) : Type 0 where
  pub source : Source
  pub direction : Direction
  pub peer_id : Option String
  pub remote_addr : Option SocketAddr

pub record Metrics (SocketAddr : Type 0) : Type 0 where
  pub labels : Labels SocketAddr
  pub stats : Stats

-- `Counters::snapshot`.
unfoldable pub snapshot :
    {SocketAddr : Type 0} → Counters → Option String → Option SocketAddr → Metrics SocketAddr
snapshot c peer_id remote_addr = record {
  labels = record {
    source = c.source;
    direction = c.direction;
    peer_id = peer_id;
    remote_addr = remote_addr;
  };
  stats = c.stats;
}
