-- ===== src/Dns.antt =====
-- The DNS actor (src/dns.rs): which host names it resolves, the queries that wait and those in
-- flight. A query in flight is a task that ends with a response or a failure; the socket is not
-- modelled. `parse_ip` stands for the parser of addresses of the standard library.
pub mod Queue
pub mod Refresh
use h3llo.Base.{
  ℕ, ◌+◌, ◌*◌, max, ltb, leb, List, [], ◌∷◌, ◌++◌, Option, none, some, Bool, true, false, not, ◌&&◌,
  String, str_eq, if◌then◌else◌, map, retain, any, ◌≡◌, Memᴰ, u32_max, ◌||◌,
}
use h3llo.Net.{IpAddr, v4, v6, same_addr}

pub data RecordType : Type 0 where
  a : RecordType
  aaaa : RecordType

pub record DnsQuery : Type 0 where
  pub hostname : String
  pub record_type : RecordType

-- The expiry of each address, and when the name is to be asked for again.
pub record HostnameState : Type 0 where
  pub ips : List (IpAddr × ℕ)
  pub next_refresh_at : ℕ

pub record DnsActor : Type 0 where
  pub hostnames : List (String × HostnameState)
  pub queued_queries : List DnsQuery
  pub pending_queries : List DnsQuery
  pub dirty : Bool

abbrev pub new_actor : DnsActor
new_actor = record { hostnames = []; queued_queries = []; pending_queries = []; dirty = false }

-- The records of a response that matter: an address with its time to live in seconds, or another.
pub data Record : Type 0 where
  a_record : ℕ → ℕ → Record
  aaaa_record : ℕ → ℕ → Record
  other_record : Record

-- How the task of a query ends.
pub data QueryResult : Type 0 where
  answered : List Record → QueryResult
  failed : QueryResult

abbrev pub same_type : RecordType → RecordType → Bool
same_type a a = true
same_type aaaa aaaa = true
same_type _ _ = false

unfoldable pub same_query : DnsQuery → DnsQuery → Bool
same_query p q = str_eq p.hostname q.hostname && same_type p.record_type q.record_type

abbrev pub has_query : List DnsQuery → DnsQuery → Bool
has_query queries q = any (λ p. same_query p q) queries

abbrev pub insert_query : DnsQuery → List DnsQuery → List DnsQuery
insert_query q queries = if has_query queries q then queries else q ∷ queries

abbrev pub remove_query : DnsQuery → List DnsQuery → List DnsQuery
remove_query q queries = retain (λ p. not (same_query p q)) queries

abbrev pub has_host : List String → String → Bool
has_host hosts host = any (λ other. str_eq other host) hosts

abbrev pub is_registered : List (String × HostnameState) → String → Bool
is_registered hostnames host = any (λ p. str_eq p.0 host) hostnames

-- The loop over the new hosts in `set_hostnames`; a host that is registered stays as it is.
abbrev pub register_host : Bool → ℕ → String → DnsActor → DnsActor
register_host true now host s = s
register_host false now host s = record s {
  hostnames = s.hostnames ++ (host, record { ips = []; next_refresh_at = now }) ∷ [];
  dirty = true;
}

unfoldable pub register : ℕ → List String → DnsActor → DnsActor
register now [] s = s
register now (host ∷ hosts) s =
    register now hosts (register_host (is_registered s.hostnames host) now host s)

unfoldable pub set_hostnames : ℕ → List String → DnsActor → DnsActor
set_hostnames now hosts s =
    let removes = any (λ (p : String × HostnameState). not (has_host hosts p.0)) s.hostnames in
    register now hosts (record s {
      hostnames = retain (λ p. has_host hosts p.0) s.hostnames;
      queued_queries = retain (λ q. has_host hosts q.hostname) s.queued_queries;
      dirty = s.dirty || removes;
    })

-- `ips.insert(ip, expires_at)`, and whether the address is new.
unfoldable pub insert_ip : IpAddr → ℕ → List (IpAddr × ℕ) → List (IpAddr × ℕ) × Bool
insert_ip ip expires_at [] = ((ip, expires_at) ∷ [], true)
insert_ip ip expires_at ((other, t) ∷ ips) =
    let (rest, fresh) = insert_ip ip expires_at ips in
    if same_addr other ip then ((other, expires_at) ∷ ips, false) else ((other, t) ∷ rest, fresh)

unfoldable pub insert_into :
    String → IpAddr → ℕ → List (String × HostnameState) → List (String × HostnameState) × Bool
insert_into host ip expires_at [] = ([], false)
insert_into host ip expires_at ((name, entry) ∷ hostnames) =
    let (rest, fresh) = insert_into host ip expires_at hostnames in
    let (ips, new) = insert_ip ip expires_at entry.ips in
    if str_eq name host
    then ((name, record entry { ips = ips }) ∷ hostnames, new)
    else ((name, entry) ∷ rest, fresh)

-- `queued_queries.insert(query)`, unless the query is in flight.
abbrev pub enqueue : List DnsQuery → DnsQuery → List DnsQuery → List DnsQuery
enqueue pending q queued = if has_query pending q then queued else insert_query q queued

-- `record_type_query` for the two types of `trigger_refresh`.
abbrev pub enqueue_both : List DnsQuery → String → List DnsQuery → List DnsQuery
enqueue_both pending host queued =
    enqueue pending (record { hostname = host; record_type = aaaa })
      (enqueue pending (record { hostname = host; record_type = a }) queued)

unfoldable pub expire_stale : ℕ → DnsActor → DnsActor
expire_stale now s =
    let stale =
      any (λ (p : String × HostnameState). any (λ (x : IpAddr × ℕ). leb x.1 now) p.1.ips)
        s.hostnames in
    record s {
      hostnames =
          map (λ p. (p.0, record p.1 { ips = retain (λ x. not (leb x.1 now)) p.1.ips }))
            s.hostnames;
      dirty = s.dirty || stale;
    }

-- `extract_if(|_| true).next()` takes some query out of the queue, and `spawn_query` starts it.
unfoldable pub spawn_query : DnsQuery → DnsActor → DnsActor
spawn_query q s = record s {
  queued_queries = remove_query q s.queued_queries;
  pending_queries = insert_query q s.pending_queries;
}

-- `entry(ip).or_insert(ttl)`: the first record of an address counts.
abbrev pub or_insert : IpAddr → ℕ → List (IpAddr × ℕ) → List (IpAddr × ℕ)
or_insert ip ttl records =
    if any (λ (r : IpAddr × ℕ). same_addr r.0 ip) records
    then records
    else records ++ (ip, ttl) ∷ []

unfoldable pub extract_records : RecordType → List Record → List (IpAddr × ℕ) → List (IpAddr × ℕ)
extract_records expected [] records = records
extract_records a (a_record ip ttl ∷ answers) records =
    extract_records a answers (or_insert (v4 ip) ttl records)
extract_records aaaa (aaaa_record ip ttl ∷ answers) records =
    extract_records aaaa answers (or_insert (v6 ip) ttl records)
extract_records expected (_ ∷ answers) records = extract_records expected answers records

-- The snapshot that is sent, if something has changed: the addresses of each name.
abbrev pub emit_snapshot : DnsActor → DnsActor × Option (List (String × List IpAddr))
emit_snapshot s = (
  record s { dirty = false },
  if s.dirty then some (map (λ p. (p.0, map (λ x. x.0) p.1.ips)) s.hostnames) else none,
)

-- Whether a name is to be asked for: it is no address, and its time has come.
abbrev pub is_time : ℕ → Option IpAddr → HostnameState → Bool
is_time now (some ip) entry = false
is_time now none entry = not (ltb now entry.next_refresh_at)

abbrev pub second : ℕ
second = 1000000000

module _ (parse_ip : String → Option IpAddr) (dns_min_ttl dns_refresh_interval : ℕ) where
  unfoldable pub record_ip : ℕ → String → IpAddr → ℕ → DnsActor → DnsActor
  record_ip now host ip ttl s =
      let expires_at = now + max (ttl * second) dns_min_ttl in
      let (hostnames, fresh) = insert_into host ip expires_at s.hostnames in
      record s { hostnames = hostnames; dirty = s.dirty || fresh }

  abbrev pub record_literal : ℕ → String → Option IpAddr → DnsActor → DnsActor
  record_literal now host none s = s
  record_literal now host (some ip) s = record_ip now host ip u32_max s

  unfoldable pub record_literals : ℕ → List String → DnsActor → DnsActor
  record_literals now [] s = s
  record_literals now (host ∷ hosts) s =
      record_literals now hosts (record_literal now host (parse_ip host) s)

  -- A response without a record of the expected type changes nothing, whatever its code.
  unfoldable pub record_all : ℕ → String → List (IpAddr × ℕ) → DnsActor → DnsActor
  record_all now host [] s = s
  record_all now host ((ip, ttl) ∷ records) s =
      record_all now host records (record_ip now host ip ttl s)

  abbrev pub apply_result : ℕ → DnsQuery → QueryResult → DnsActor → DnsActor
  apply_result now q (answered answers) s =
      record_all now q.hostname (extract_records q.record_type answers []) s
  apply_result now q failed s = record s { queued_queries = insert_query q s.queued_queries }

  unfoldable pub handle_query_result : ℕ → DnsQuery → QueryResult → DnsActor → DnsActor
  handle_query_result now q result s =
      let s' = record s { pending_queries = remove_query q s.pending_queries } in
      if is_registered s.hostnames q.hostname then apply_result now q result s' else s'

  abbrev pub is_due : ℕ → String → HostnameState → Bool
  is_due now host entry = is_time now (parse_ip host) entry

  unfoldable pub refresh :
      ℕ
      → List DnsQuery
      → List (String × HostnameState)
      → List DnsQuery
      → List (String × HostnameState) × List DnsQuery
  refresh now pending [] queued = ([], queued)
  refresh now pending ((host, entry) ∷ hostnames) queued =
      let due = is_due now host entry in
      let (rest, queries) =
        refresh now pending hostnames (if due then enqueue_both pending host queued else queued) in
      (
        (host, if due then record entry { next_refresh_at = now + dns_refresh_interval } else entry)
            ∷ rest,
        queries,
      )

  unfoldable pub trigger_refresh : ℕ → DnsActor → DnsActor
  trigger_refresh now s =
      let (hostnames, queued) = refresh now s.pending_queries s.hostnames s.queued_queries in
      record s { hostnames = hostnames; queued_queries = queued }

  unfoldable pub handle_set_hostnames : ℕ → List String → DnsActor → DnsActor
  handle_set_hostnames now hosts s =
      trigger_refresh now
        (record (record_literals now hosts (set_hostnames now hosts s)) { dirty = true })

  -- One round of the actor's loop; a snapshot follows each.
  pub data Step (s : DnsActor) : DnsActor → Type 0 where
    hosts_set :
        (now : ℕ) (hosts : List String)
        → Step s (emit_snapshot (handle_set_hostnames now hosts s)).0
    result_arrived :
        (now : ℕ) (q : DnsQuery) (result : QueryResult)
        → Memᴰ q s.pending_queries
        → Step s (emit_snapshot (handle_query_result now q result s)).0
    refresh_due : (now : ℕ) → Step s (emit_snapshot (expire_stale now (trigger_refresh now s))).0
    query_due :
        (q : DnsQuery) → Memᴰ q s.queued_queries → Step s (emit_snapshot (spawn_query q s)).0

  pub data Reachable : DnsActor → Type 0 where
    started : Reachable new_actor
    stepped : {s s' : DnsActor} → Reachable s → Step s s' → Reachable s'
