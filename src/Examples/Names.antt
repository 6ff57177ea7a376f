-- ===== src/Examples/Names.antt =====
-- The DNS actor with one host name.
use h3llo.Base.{[], ◌∷◌, Option, none, false, String, refl, Memᴰ, arith}
use mathlib.Core.List.Memᴰ.{head, tail}
use h3llo.Net.{IpAddr}
use h3llo.Dns.{
  DnsActor, DnsQuery, a, aaaa, HostnameState, new_actor, handle_set_hostnames, spawn_query,
  hosts_set, query_due, started, stepped, trigger_refresh, refresh, set_hostnames, register,
  record_literals, same_query,
}
use h3llo.Dns.Queue.{Reachable-pending}
use h3llo.Dns.Refresh.{IsAsked, trigger_refresh-IsAsked}

-- No text is an address.
abbrev parse_ip : String → Option IpAddr
parse_ip host = none

abbrev first_query : DnsQuery
first_query = record { hostname = "example.com"; record_type = a }

abbrev second_query : DnsQuery
second_query = record { hostname = "example.com"; record_type = aaaa }

abbrev asked : DnsActor
asked = record (handle_set_hostnames parse_ip 30 60 5 ("example.com" ∷ []) new_actor) {
  dirty = false;
}

abbrev sent : DnsActor
sent = record (spawn_query first_query asked) { dirty = false }

first_queued : Memᴰ first_query asked.queued_queries
unfolding handle_set_hostnames trigger_refresh refresh set_hostnames register record_literals
    same_query
first_queued = tail (head refl)

second_queued : Memᴰ second_query sent.queued_queries
unfolding handle_set_hostnames trigger_refresh refresh set_hostnames register record_literals
    same_query spawn_query
second_queued = head refl

Reachable-pending_example : ¬ Memᴰ second_query sent.pending_queries
Reachable-pending_example =
    Reachable-pending parse_ip 30 60 sent second_query
      (stepped (stepped started (hosts_set 5 ("example.com" ∷ [])))
        (query_due first_query first_queued))
      second_queued

-- The name is to be asked for at 65.
abbrev entry : HostnameState
entry = record { ips = []; next_refresh_at = 65 }

abbrev idle : DnsActor
idle = record {
  hostnames = ("example.com", entry) ∷ [];
  queued_queries = [];
  pending_queries = first_query ∷ [];
  dirty = false;
}

trigger_refresh-IsAsked_example :
    IsAsked
      (trigger_refresh parse_ip 30 60 70 idle).queued_queries
      (trigger_refresh parse_ip 30 60 70 idle).pending_queries
      second_query
trigger_refresh-IsAsked_example =
    trigger_refresh-IsAsked parse_ip 30 60 70 idle "example.com" entry aaaa (head refl) refl
      (omega arith)
