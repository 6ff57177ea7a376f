-- ===== src/Dns/Queue.antt =====
-- No query of the DNS actor is both queued and in flight.
use h3llo.Base.{
  ℕ, List, [], ◌∷◌, Option, none, some, Bool, true, false, not, ◌&&◌, String, str_eq, eq_iff, ◌≡◌,
  ◌↔◌, ◌⊎◌, refl, subst, Memᴰ, inl, inr, Bool-cases, any-mem, mem-any, retain-mem, arith,
  if◌then◌else◌,
}
use mathlib.Core.List.Memᴰ.{head, tail}
use h3llo.Net.{IpAddr}
use h3llo.Dns.{
  DnsActor, DnsQuery, RecordType, a, aaaa, HostnameState, QueryResult, answered, failed, same_type,
  same_query, has_query, insert_query, remove_query, enqueue, enqueue_both, register_host, register,
  set_hostnames, has_host, is_registered, record_ip, record_literal, record_literals, record_all,
  apply_result, extract_records, refresh, trigger_refresh, expire_stale, spawn_query,
  handle_query_result, handle_set_hostnames, Step, hosts_set, result_arrived, refresh_due,
  query_due, Reachable, started, stepped, is_due,
}

same_type_eq : (s t : RecordType) → same_type s t ≡ true → s ≡ t
same_type_eq a a h = refl
same_type_eq aaaa aaaa h = refl
same_type_eq a aaaa h = ground arith
same_type_eq aaaa a h = ground arith

and_true : (x y : Bool) → (x && y) ≡ true → (x ≡ true) × (y ≡ true)
and_true x y h = ground arith

same_type_refl : (t : RecordType) → same_type t t ≡ true
same_type_refl a = refl
same_type_refl aaaa = refl

same_query_refl : (p : DnsQuery) → same_query p p ≡ true
unfolding same_query
same_query_refl p = rw ((eq_iff p.hostname p.hostname).1 refl) (same_type_refl p.record_type)

same_query_iff : (p q : DnsQuery) → (same_query p q ≡ true) ↔ (p ≡ q)
unfolding same_query
same_query_iff p q = (
  λ h.
      let both =
        and_true (str_eq p.hostname q.hostname) (same_type p.record_type q.record_type) h in
      let host = (eq_iff p.hostname q.hostname).0 both.0 in
      let kind = same_type_eq p.record_type q.record_type both.1 in
      λ i. record { hostname = host i; record_type = kind i },
  λ e. subst (λ x. same_query p x ≡ true) e (same_query_refl p),
)

-- A query that is queued is not in flight.
abbrev pub IsDisjoint : DnsActor → Type 0
IsDisjoint s = (q : DnsQuery) → Memᴰ q s.queued_queries → ¬ Memᴰ q s.pending_queries

pub has_query_iff :
    (queries : List DnsQuery) (q : DnsQuery) → (has_query queries q ≡ true) ↔ Memᴰ q queries
has_query_iff queries q = (
  λ h.
      let found = any-mem (λ p. same_query p q) queries h in
      subst (λ p. Memᴰ p queries) ((same_query_iff found.0 q).0 found.1.1) found.1.0,
  λ m. mem-any (λ p. same_query p q) queries q m ((same_query_iff q q).1 refl),
)

if_cons :
    (b : Bool) (x : DnsQuery) (queries : List DnsQuery) (q : DnsQuery)
    → Memᴰ q (if b then queries else x ∷ queries)
    → (q ≡ x) ⊎ Memᴰ q queries
if_cons true x queries q m = inr m
if_cons false x queries q (head same) = inl same
if_cons false x queries q (tail m) = inr m

mem-insert_query :
    (q x : DnsQuery) (queries : List DnsQuery)
    → Memᴰ q (insert_query x queries)
    → (q ≡ x) ⊎ Memᴰ q queries
mem-insert_query q x queries m = if_cons (has_query queries x) x queries q m

not-both : (b : Bool) → not b ≡ true → ¬ (b ≡ true)
not-both b h k = ground arith

mem-remove_query :
    (q x : DnsQuery) (queries : List DnsQuery)
    → Memᴰ q (remove_query x queries)
    → Memᴰ q queries × (¬ (q ≡ x))
mem-remove_query q x queries m =
    let r = retain-mem (λ p. not (same_query p x)) queries q m in
    (r.0, λ e. not-both (same_query q x) r.1 ((same_query_iff q x).1 e))

true-not-false : {b : Bool} → b ≡ true → ¬ (b ≡ false)
true-not-false h k = ground arith

-- What is enqueued is not in flight.
mem-enqueue :
    (pending : List DnsQuery) (x q : DnsQuery) (queued : List DnsQuery)
    → Memᴰ q (enqueue pending x queued)
    → Memᴰ q queued ⊎ (¬ Memᴰ q pending)
mem-enqueue pending x q queued m = elim (Bool-cases (has_query pending x)) [
  | inl t ↦ inl (subst (λ b. Memᴰ q (if b then queued else insert_query x queued)) t m)
  | inr f ↦
      elim (mem-insert_query q x queued
        (subst (λ b. Memᴰ q (if b then queued else insert_query x queued)) f m)) [
          | inl same ↦ inr (λ n.
              true-not-false ((has_query_iff pending x).1 (subst (λ y. Memᴰ y pending) same n)) f)
          | inr there ↦ inl there
        ]
]

mem-enqueue_both :
    (pending : List DnsQuery) (host : String) (q : DnsQuery) (queued : List DnsQuery)
    → Memᴰ q (enqueue_both pending host queued)
    → Memᴰ q queued ⊎ (¬ Memᴰ q pending)
mem-enqueue_both pending host q queued m =
    elim (mem-enqueue pending (record { hostname = host; record_type = aaaa }) q _ m) [
      | inl inner ↦ mem-enqueue pending (record { hostname = host; record_type = a }) q queued inner
      | inr free ↦ inr free
    ]

mem-enqueue_if :
    (b : Bool) (pending : List DnsQuery) (host : String) (q : DnsQuery) (queued : List DnsQuery)
    → Memᴰ q (if b then enqueue_both pending host queued else queued)
    → Memᴰ q queued ⊎ (¬ Memᴰ q pending)
mem-enqueue_if true pending host q queued m = mem-enqueue_both pending host q queued m
mem-enqueue_if false pending host q queued m = inl m

IsDisjoint-if :
    (b : Bool) (s s' : DnsActor) → IsDisjoint s → IsDisjoint s' → IsDisjoint (if b then s else s')
IsDisjoint-if true s s' h k = h
IsDisjoint-if false s s' h k = k

register_host-IsDisjoint :
    (b : Bool) (now : ℕ) (host : String) (s : DnsActor)
    → IsDisjoint s
    → IsDisjoint (register_host b now host s)
register_host-IsDisjoint true now host s h = h
register_host-IsDisjoint false now host s h = h

register-IsDisjoint :
    (now : ℕ) (hosts : List String) (s : DnsActor)
    → IsDisjoint s
    → IsDisjoint (register now hosts s)
unfolding register
register-IsDisjoint now [] s h = h
register-IsDisjoint now (host ∷ hosts) s h =
    register-IsDisjoint now hosts _
      (register_host-IsDisjoint (is_registered s.hostnames host) now host s h)

set_hostnames-IsDisjoint :
    (now : ℕ) (hosts : List String) (s : DnsActor)
    → IsDisjoint s
    → IsDisjoint (set_hostnames now hosts s)
unfolding set_hostnames
set_hostnames-IsDisjoint now hosts s h = register-IsDisjoint now hosts _ (λ q queued pending.
    h q (retain-mem (λ p. has_host hosts p.hostname) s.queued_queries q queued).0 pending)

-- A query moves from the queue into flight.
spawn_query-IsDisjoint : (x : DnsQuery) (s : DnsActor) → IsDisjoint s → IsDisjoint (spawn_query x s)
unfolding spawn_query
spawn_query-IsDisjoint x s h q queued pending =
    let left = mem-remove_query q x s.queued_queries queued in
    elim (mem-insert_query q x s.pending_queries pending) [
      | inl same ↦ left.1 same
      | inr before ↦ h q left.0 before
    ]

module _ (parse_ip : String → Option IpAddr) (dns_min_ttl dns_refresh_interval : ℕ) where
  mem-refresh :
      (now : ℕ) (pending : List DnsQuery) (hostnames : List (String × HostnameState)) (q : DnsQuery)
      (queued : List DnsQuery)
      → Memᴰ q (refresh parse_ip dns_min_ttl dns_refresh_interval now pending hostnames queued).1
      → Memᴰ q queued ⊎ (¬ Memᴰ q pending)
  unfolding refresh
  mem-refresh now pending [] q queued m = inl m
  mem-refresh now pending ((host, entry) ∷ hostnames) q queued m =
      let due = is_due parse_ip dns_min_ttl dns_refresh_interval now host entry in
      elim (mem-refresh now pending hostnames q
        (if due then enqueue_both pending host queued else queued) m) [
          | inl inner ↦ mem-enqueue_if due pending host q queued inner
          | inr free ↦ inr free
        ]

  trigger_refresh-IsDisjoint :
      (now : ℕ) (s : DnsActor)
      → IsDisjoint s
      → IsDisjoint (trigger_refresh parse_ip dns_min_ttl dns_refresh_interval now s)
  unfolding trigger_refresh
  trigger_refresh-IsDisjoint now s h q queued pending =
      elim (mem-refresh now s.pending_queries s.hostnames q s.queued_queries queued) [
        | inl before ↦ h q before pending
        | inr free ↦ free pending
      ]

  record_all-IsDisjoint :
      (now : ℕ) (host : String) (records : List (IpAddr × ℕ)) (s : DnsActor)
      → IsDisjoint s
      → IsDisjoint (record_all parse_ip dns_min_ttl dns_refresh_interval now host records s)
  unfolding record_all record_ip
  record_all-IsDisjoint now host [] s h = h
  record_all-IsDisjoint now host ((ip, ttl) ∷ records) s h =
      record_all-IsDisjoint now host records
        (record_ip parse_ip dns_min_ttl dns_refresh_interval now host ip ttl s) h

  record_literal-IsDisjoint :
      (now : ℕ) (host : String) (ip : Option IpAddr) (s : DnsActor)
      → IsDisjoint s
      → IsDisjoint (record_literal parse_ip dns_min_ttl dns_refresh_interval now host ip s)
  unfolding record_ip
  record_literal-IsDisjoint now host none s h = h
  record_literal-IsDisjoint now host (some ip) s h = h

  record_literals-IsDisjoint :
      (now : ℕ) (hosts : List String) (s : DnsActor)
      → IsDisjoint s
      → IsDisjoint (record_literals parse_ip dns_min_ttl dns_refresh_interval now hosts s)
  unfolding record_literals record_ip
  record_literals-IsDisjoint now [] s h = h
  record_literals-IsDisjoint now (host ∷ hosts) s h =
      record_literals-IsDisjoint now hosts _
        (record_literal-IsDisjoint now host (parse_ip host) s h)

  -- A query that failed moves back from flight into the queue.
  apply_result-IsDisjoint :
      (now : ℕ) (x : DnsQuery) (result : QueryResult) (s : DnsActor)
      → IsDisjoint s
      → ¬ Memᴰ x s.pending_queries
      → IsDisjoint (apply_result parse_ip dns_min_ttl dns_refresh_interval now x result s)
  apply_result-IsDisjoint now x (answered answers) s h out =
      record_all-IsDisjoint now x.hostname (extract_records x.record_type answers []) s h
  apply_result-IsDisjoint now x failed s h out = λ q queued pending.
      elim (mem-insert_query q x s.queued_queries queued) [
        | inl same ↦ out (subst (λ y. Memᴰ y s.pending_queries) same pending)
        | inr before ↦ h q before pending
      ]

  handle_query_result-IsDisjoint :
      (now : ℕ) (x : DnsQuery) (result : QueryResult) (s : DnsActor)
      → IsDisjoint s
      → IsDisjoint (handle_query_result parse_ip dns_min_ttl dns_refresh_interval now x result s)
  unfolding handle_query_result
  handle_query_result-IsDisjoint now x result s h =
      let s' : DnsActor = record s { pending_queries = remove_query x s.pending_queries } in
      let landed : IsDisjoint s' =
        λ q queued pending. h q queued (mem-remove_query q x s.pending_queries pending).0 in
      IsDisjoint-if (is_registered s.hostnames x.hostname)
        (apply_result parse_ip dns_min_ttl dns_refresh_interval now x result s') s'
        (apply_result-IsDisjoint now x result s' landed
          (λ m. (mem-remove_query x x s.pending_queries m).1 refl))
        landed

  Step-IsDisjoint :
      (s s' : DnsActor)
      → Step parse_ip dns_min_ttl dns_refresh_interval s s'
      → IsDisjoint s
      → IsDisjoint s'
  unfolding expire_stale handle_set_hostnames
  Step-IsDisjoint s s' (hosts_set now hosts) h =
      trigger_refresh-IsDisjoint now _
        (record_literals-IsDisjoint now hosts _ (set_hostnames-IsDisjoint now hosts s h))
  Step-IsDisjoint s s' (result_arrived now q result m) h =
      handle_query_result-IsDisjoint now q result s h
  Step-IsDisjoint s s' (refresh_due now) h = trigger_refresh-IsDisjoint now s h
  Step-IsDisjoint s s' (query_due q m) h = spawn_query-IsDisjoint q s h

  Reachable-IsDisjoint :
      (s : DnsActor) → Reachable parse_ip dns_min_ttl dns_refresh_interval s → IsDisjoint s
  Reachable-IsDisjoint s started = λ q queued pending. elim queued [ ]
  Reachable-IsDisjoint s (stepped {s = before} run step) =
      Step-IsDisjoint before s step (Reachable-IsDisjoint before run)

  -- In a state that the actor reaches, a query that is queued is not in flight.
  pub Reachable-pending :
      (s : DnsActor) (q : DnsQuery)
      → Reachable parse_ip dns_min_ttl dns_refresh_interval s
      → Memᴰ q s.queued_queries
      → ¬ Memᴰ q s.pending_queries
  Reachable-pending s q run = Reachable-IsDisjoint s run q
