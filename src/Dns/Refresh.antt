-- ===== src/Dns/Refresh.antt =====
-- What a refresh asks for.
use h3llo.Base.{
  ℕ, ◌≤◌, List, [], ◌∷◌, Option, none, Bool, true, false, String, ◌≡◌, ◌⊎◌, refl, ap, ◌∙◌, subst,
  Memᴰ, inl, inr, Bool-cases, arith, if◌then◌else◌,
}
use mathlib.Core.List.Memᴰ.{head, tail}
use h3llo.Net.{IpAddr}
use h3llo.Dns.{
  DnsActor, DnsQuery, RecordType, a, aaaa, HostnameState, has_query, insert_query, enqueue,
  enqueue_both, refresh, trigger_refresh, is_due, is_time,
}
use h3llo.Dns.Queue.{has_query_iff}

-- Queued or in flight.
abbrev pub IsAsked : List DnsQuery → List DnsQuery → DnsQuery → Type 0
IsAsked queued pending q = Memᴰ q queued ⊎ Memᴰ q pending

insert_query_mono :
    (q x : DnsQuery) (queued : List DnsQuery) → Memᴰ q queued → Memᴰ q (insert_query x queued)
insert_query_mono q x queued m = elim (Bool-cases (has_query queued x)) [
  | inl t ↦ rw t m
  | inr f ↦ rw f (tail m)
]

insert_query_self : (x : DnsQuery) (queued : List DnsQuery) → Memᴰ x (insert_query x queued)
insert_query_self x queued = elim (Bool-cases (has_query queued x)) [
  | inl t ↦ rw t ((has_query_iff queued x).0 t)
  | inr f ↦ rw f (head refl)
]

enqueue_mono :
    (pending queued : List DnsQuery) (q x : DnsQuery)
    → IsAsked queued pending q
    → IsAsked (enqueue pending x queued) pending q
enqueue_mono pending queued q x (inr m) = inr m
enqueue_mono pending queued q x (inl m) = elim (Bool-cases (has_query pending x)) [
  | inl t ↦ rw t (inl m)
  | inr f ↦ rw f (inl (insert_query_mono q x queued m))
]

enqueue_self :
    (pending queued : List DnsQuery) (x : DnsQuery) → IsAsked (enqueue pending x queued) pending x
enqueue_self pending queued x = elim (Bool-cases (has_query pending x)) [
  | inl t ↦ inr ((has_query_iff pending x).0 t)
  | inr f ↦ rw f (inl (insert_query_self x queued))
]

enqueue_if_mono :
    (b : Bool) (pending queued : List DnsQuery) (host : String) (q : DnsQuery)
    → IsAsked queued pending q
    → IsAsked (if b then enqueue_both pending host queued else queued) pending q
enqueue_if_mono true pending queued host q h =
    enqueue_mono pending _ q (record { hostname = host; record_type = aaaa })
      (enqueue_mono pending queued q (record { hostname = host; record_type = a }) h)
enqueue_if_mono false pending queued host q h = h

enqueue_both_self :
    (pending queued : List DnsQuery) (host : String) (kind : RecordType)
    → IsAsked
        (enqueue_both pending host queued)
        pending
        (record { hostname = host; record_type = kind })
enqueue_both_self pending queued host a =
    enqueue_mono pending _ (record { hostname = host; record_type = a })
      (record { hostname = host; record_type = aaaa })
      (enqueue_self pending queued (record { hostname = host; record_type = a }))
enqueue_both_self pending queued host aaaa =
    enqueue_self pending _ (record { hostname = host; record_type = aaaa })

module _ (parse_ip : String → Option IpAddr) (dns_min_ttl dns_refresh_interval : ℕ) where
  refresh_mono :
      (now : ℕ) (pending : List DnsQuery) (hostnames : List (String × HostnameState)) (q : DnsQuery)
      (queued : List DnsQuery)
      → IsAsked queued pending q
      → IsAsked
          (refresh parse_ip dns_min_ttl dns_refresh_interval now pending hostnames queued).1
          pending
          q
  unfolding refresh
  refresh_mono now pending [] q queued h = h
  refresh_mono now pending ((host, entry) ∷ hostnames) q queued h =
      refresh_mono now pending hostnames q _ (
        enqueue_if_mono (is_due parse_ip dns_min_ttl dns_refresh_interval now host entry) pending
          queued host q h)

  refresh_due :
      (now : ℕ) (pending : List DnsQuery) (hostnames : List (String × HostnameState))
      (host : String) (entry : HostnameState) (kind : RecordType) (queued : List DnsQuery)
      → is_due parse_ip dns_min_ttl dns_refresh_interval now host entry ≡ true
      → Memᴰ (host, entry) hostnames
      → IsAsked
          (refresh parse_ip dns_min_ttl dns_refresh_interval now pending hostnames queued).1
          pending
          (record { hostname = host; record_type = kind })
  unfolding refresh
  refresh_due now pending [] host entry kind queued due m = elim m [ ]
  refresh_due now pending ((name, first) ∷ hostnames) host entry kind queued due (tail m) =
      refresh_due now pending hostnames host entry kind _ due m
  refresh_due now pending ((name, first) ∷ hostnames) host entry kind queued due (head same) =
      refresh_mono now pending hostnames (record { hostname = host; record_type = kind }) _
        (subst
          (λ (p : String × HostnameState).
            IsAsked
              (if is_due parse_ip dns_min_ttl dns_refresh_interval now p.0 p.1
                then enqueue_both pending p.0 queued
                else queued)
              pending (record { hostname = host; record_type = kind }))
          same (rw due (enqueue_both_self pending queued host kind)))

  due_lem :
      (now : ℕ) (host : String) (entry : HostnameState)
      → parse_ip host ≡ none
      → entry.next_refresh_at ≤ now
      → is_due parse_ip dns_min_ttl dns_refresh_interval now host entry ≡ true
  due_lem now host entry named over = ap (λ o. is_time now o entry) named ∙ ground arith

  -- After a refresh, both queries for a name that is no address and whose refresh time has come are
  -- queued or in flight.
  pub trigger_refresh-IsAsked :
      (now : ℕ) (s : DnsActor) (host : String) (entry : HostnameState) (kind : RecordType)
      → Memᴰ (host, entry) s.hostnames
      → parse_ip host ≡ none
      → entry.next_refresh_at ≤ now
      → IsAsked
          (trigger_refresh parse_ip dns_min_ttl dns_refresh_interval now s).queued_queries
          (trigger_refresh parse_ip dns_min_ttl dns_refresh_interval now s).pending_queries
          (record { hostname = host; record_type = kind })
  unfolding trigger_refresh
  trigger_refresh-IsAsked now s host entry kind m named over =
      refresh_due now s.pending_queries s.hostnames host entry kind s.queued_queries
        (due_lem now host entry named over) m
