-- ===== src/Orchestrator/Sources.antt =====
-- The filter of the bare UDP receiver, and when a failed dial is made again.
use h3llo.Base.{
  ℕ, ◌+◌, ◌<◌, ◌≤◌, List, [], ◌∷◌, ◌++◌, Option, some, Bool, true, false, String, ◌≡◌, ◌↔◌, refl,
  sym, ap, ◌∙◌, subst, Memᴰ, Result, ok, err, inl, inr, arith, if◌then◌else◌,
}
use mathlib.Core.Option
use mathlib.Core.List.Memᴰ.{head, tail, append_left, append_right, append_cases}
use h3llo.Net.{IpAddr, IpNets, IpnetTrie, same_addr_iff}
use h3llo.Config.{PeerBare, PeerTransport}
use h3llo.Channel.{Channels}
use h3llo.Dial.{DialState, delay, record_failure}
use h3llo.Table.{RouteEntry, RoutingError, make}
use h3llo.Pool.{PeerEntry, try_connect}
use h3llo.Pool.Connect.{IsCovered, IsBlocked, try_connect_iff}
use h3llo.Peers.{PeerMap, accepted_ips, bare_ips, peer_configs, preferred_txs, collect_allowed_ips}
use h3llo.Orchestrator.{
  Message, update_routing, update_accepted_sources, sync_routes, Orchestrator, send_if, send_table,
  rebuild_routing, settle, refresh_accepted_sources, handle_dns_snapshot, resolve, fail_dial,
}
use h3llo.Orchestrator.Settled.{rebuild_routing-peers}

-- Some peer with bare UDP has the address.
abbrev pub IsBareSource : {Net Tx : Type 0} → PeerMap Net Tx → IpAddr → Type 0
IsBareSource {Net} {Tx} peers ip =
    (p : String × PeerEntry Net Tx) × (Memᴰ p peers
      × (((b : PeerBare) × (p.1.config.transport ≡ PeerTransport.bare b))
          × Memᴰ ip p.1.resolved_ips))

mem-bare_ips :
    (t : PeerTransport) (ips : List IpAddr) (ip : IpAddr)
    → Memᴰ ip (bare_ips t ips)
    → ((b : PeerBare) × (t ≡ PeerTransport.bare b)) × Memᴰ ip ips
mem-bare_ips (PeerTransport.bare b) ips ip m = ((b, refl), m)
mem-bare_ips (PeerTransport.h3 h) ips ip m = elim m [ ]

module _ {Net Tx : Type 0} where
  accepted_ips_sound :
      (peers : PeerMap Net Tx) (ip : IpAddr) → Memᴰ ip (accepted_ips peers) → IsBareSource peers ip
  unfolding accepted_ips
  accepted_ips_sound [] ip m = elim m [ ]
  accepted_ips_sound ((key, e) ∷ peers) ip m =
      elim (append_cases (bare_ips e.config.transport e.resolved_ips) m) [
        | inl here ↦ ((key, e), (head refl, mem-bare_ips e.config.transport e.resolved_ips ip here))
        | inr there ↦
            let below = accepted_ips_sound peers ip there in (below.0, (tail below.1.0, below.1.1))
      ]

  accepted_ips_complete :
      (peers : PeerMap Net Tx) (ip : IpAddr) → IsBareSource peers ip → Memᴰ ip (accepted_ips peers)
  unfolding accepted_ips
  accepted_ips_complete [] ip h = elim h.1.0 [ ]
  accepted_ips_complete ((key, e) ∷ peers) ip (p, (head same, (bare, m))) =
      let here = subst (λ t. Memᴰ ip (bare_ips t p.1.resolved_ips)) (sym bare.1) m in
      subst
        (λ (q : String × PeerEntry Net Tx).
          Memᴰ ip (bare_ips q.1.config.transport q.1.resolved_ips ++ accepted_ips peers))
        same (append_left (accepted_ips peers) here)
  accepted_ips_complete ((key, e) ∷ peers) ip (p, (tail below, rest)) =
      append_right (bare_ips e.config.transport e.resolved_ips)
        (accepted_ips_complete peers ip (p, (below, rest)))

-- An address whose dial failed at `now` is dialed again exactly from the end of the backoff on, as
-- long as the name has it and no connection leads to it.
pub fail_dial-try_connect :
    {Net Tx : Type 0} (now later backoff_min backoff_max : ℕ) (ip : IpAddr) (e : PeerEntry Net Tx)
    (s : DialState)
    → e.dials ip ≡ some s
    → Memᴰ ip e.resolved_ips
    → ¬ IsCovered e ip
    → Memᴰ ip (try_connect later (fail_dial now backoff_min backoff_max ip e)).1
      ↔ (now + delay backoff_min backoff_max s.attempt ≤ later)
unfolding fail_dial record_failure
fail_dial-try_connect now later lo hi ip e s dialing named free =
    let failed : (fail_dial now lo hi ip e).dials ip ≡ some (record_failure now lo hi s) =
      ap (λ b. if b then Option.map (record_failure now lo hi) (e.dials ip) else e.dials ip)
        ((same_addr_iff ip ip).1 refl)
      ∙ ap (Option.map (record_failure now lo hi)) dialing in
    let spec = try_connect_iff later (fail_dial now lo hi ip e) ip in
    let ends = now + delay lo hi s.attempt in
    (
      λ m.
          let waits : ¬ (later < ends) =
            λ h. (spec.0 m).1.1 (subst (IsBlocked later) (sym failed) (inr h)) in
          omega arith,
      λ h. spec.1 (
        named,
        (
          free,
          λ b. elim (subst (IsBlocked later) failed b) [
            | inl x ↦ ground arith
            | inr x ↦ omega arith
          ],
        ),
      ),
    )

module _ {Net Tx Trie : Type 0} where
  mem-sent :
      (b : Bool) (r : Result Trie (RoutingError Net)) (m sync : Message Net Trie)
      (o : Orchestrator Net Tx Trie)
      → Memᴰ m o.sent
      → Memᴰ m (send_if b sync (send_table r o)).sent
  mem-sent true (ok routing) m sync o h =
      append_left (sync ∷ []) (append_left (update_routing routing ∷ []) h)
  mem-sent true (err e) m sync o h = append_left (sync ∷ []) h
  mem-sent false (ok routing) m sync o h = append_left (update_routing routing ∷ []) h
  mem-sent false (err e) m sync o h = h

  refreshed_sent :
      (o : Orchestrator Net Tx Trie)
      → o.has_bare_rx ≡ true
      → Memᴰ (update_accepted_sources (accepted_ips o.peers)) (refresh_accepted_sources o).sent
  unfolding refresh_accepted_sources
  refreshed_sent o h = rw h (append_right o.sent (head refl))

  refreshed_same :
      (o : Orchestrator Net Tx Trie)
      → o.has_bare_rx ≡ true
      → (refresh_accepted_sources o).peers ≡ o.peers
  unfolding refresh_accepted_sources
  refreshed_same o h = rw h refl

-- If there is a bare UDP receiver, a DNS snapshot sends it exactly the addresses that the peers with
-- bare UDP have afterwards.
pub handle_dns_snapshot-sources :
    {Net Tx Trie : Type 0} (nets : IpNets Net) (trie : IpnetTrie Net nets (RouteEntry Tx) Trie)
    (channels : Channels Tx) (is_closed : Tx → Bool) (now : ℕ)
    (dns_state : String → Option (List IpAddr)) (o : Orchestrator Net Tx Trie)
    → o.has_bare_rx ≡ true
    → (ips : List IpAddr) × (Memᴰ
          (update_accepted_sources ips)
          (handle_dns_snapshot nets trie channels is_closed now dns_state o).sent
        × ((ip : IpAddr)
            → Memᴰ ip ips
              ↔ IsBareSource
                  (handle_dns_snapshot nets trie channels is_closed now dns_state o).peers
                  ip))
unfolding handle_dns_snapshot settle rebuild_routing
handle_dns_snapshot-sources nets trie channels is_closed now dns_state o h =
    let settled = (settle nets trie channels is_closed now (resolve dns_state) o).0 in
    let fresh = refresh_accepted_sources settled in
    let configs = peer_configs fresh.peers in
    let same = rebuild_routing-peers nets trie fresh ∙ refreshed_same settled h in
    (
      accepted_ips settled.peers,
      (
        mem-sent fresh.has_route
            (make nets trie configs (preferred_txs fresh.peers) fresh.locals.tun fresh.input_tx)
            (update_accepted_sources (accepted_ips settled.peers))
            (sync_routes fresh.locals.tun.addrs (collect_allowed_ips configs)) fresh
            (refreshed_sent settled h),
        λ ip. (
          λ m. subst (λ ps. IsBareSource ps ip) (sym same) (accepted_ips_sound settled.peers ip m),
          λ b. accepted_ips_complete settled.peers ip (subst (λ ps. IsBareSource ps ip) same b),
        ),
      ),
    )
