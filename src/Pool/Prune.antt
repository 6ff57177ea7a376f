-- ===== src/Pool/Prune.antt =====
-- What `prune` leaves in the entry of a peer: the connections that are valid, and no other.
use h3llo.Base.{
  List, Option, none, some, Bool, true, false, not, ◌&&◌, ◌≡◌, ◌↔◌, refl, sym, ap, ◌∙◌, subst, Memᴰ,
  retain-mem, mem-retain, retain-retain, any-mem, mem-any, arith, if◌then◌else◌, and_iff,
}
use h3llo.Net.{IpAddr, same_addr, same_addr_iff}
use h3llo.Channel.{Channels}
use h3llo.Pool.{
  ActiveConn, Endpoint, PeerEntry, config_endpoint, same_endpoint, contains, is_current, keeps,
  prune, preferred_tx, first_changed,
}
use h3llo.Dial.{DialState}
use mathlib.Core.Option.{some-injective}

pub contains_iff : (ips : List IpAddr) (ip : IpAddr) → (contains ips ip ≡ true) ↔ Memᴰ ip ips
contains_iff ips ip = (
  λ h.
      let found = any-mem (λ other. same_addr other ip) ips h in
      subst (λ other. Memᴰ other ips) ((same_addr_iff found.0 ip).0 found.1.1) found.1.0,
  λ m. mem-any (λ other. same_addr other ip) ips ip m ((same_addr_iff ip ip).1 refl),
)

-- Where a connection that this peer dialed should lead: the endpoint of the configuration, at an
-- address that its name has now. A connection that the other side opened has no endpoint.
abbrev pub LeadsTo : Option Endpoint → List IpAddr → IpAddr → Option Endpoint → Type 0
LeadsTo config ips ip none = Unit
LeadsTo config ips ip (some endpoint) =
    ((now : Endpoint) × ((config ≡ some now) × (same_endpoint now endpoint ≡ true))) × Memᴰ ip ips

abbrev pub IsCurrent : {Net Tx : Type 0} → PeerEntry Net Tx → ActiveConn Tx → Type 0
IsCurrent e bound = LeadsTo (config_endpoint e) e.resolved_ips bound.dest.ip bound.endpoint

validity :
    (closed : Bool) (endpoint now : Option Endpoint) (ips : List IpAddr) (ip : IpAddr)
    → ((not closed && is_current now ips ip endpoint) ≡ true)
      ↔ ((closed ≡ false) × LeadsTo now ips ip endpoint)
validity true endpoint now ips ip = (λ h. ground arith, λ h. ground arith)
validity false none now ips ip = (λ h. (refl, tt), λ h. refl)
validity false (some x) none ips ip = (λ h. ground arith, λ h. ground arith)
validity false (some x) (some y) ips ip = (
  λ h.
      let both = (and_iff (same_endpoint y x) (contains ips ip)).0 h in
      (refl, ((y, (refl, both.0)), (contains_iff ips ip).0 both.1)),
  λ h.
      let same =
        ap (λ (z : Endpoint). same_endpoint z x) (some-injective y h.1.0.0 h.1.0.1.0) ∙ h.1.0.1.1 in
      (and_iff (same_endpoint y x) (contains ips ip)).1 (same, (contains_iff ips ip).1 h.1.1),
)

pub keeps-IsCurrent :
    {Net Tx : Type 0} (is_closed : Tx → Bool) (e : PeerEntry Net Tx) (bound : ActiveConn Tx)
    → (keeps is_closed e bound ≡ true) ↔ ((is_closed bound.tx ≡ false) × IsCurrent e bound)
unfolding keeps
keeps-IsCurrent is_closed e bound =
    validity (is_closed bound.tx) bound.endpoint (config_endpoint e) e.resolved_ips bound.dest.ip

-- `prune` removes a connection exactly if its channel is closed, or if this peer dialed it and it
-- does not lead to the endpoint of the configuration at an address that the name has now.
pub prune_iff :
    {Net Tx : Type 0} (channels : Channels Tx) (is_closed : Tx → Bool) (e : PeerEntry Net Tx)
    (bound : ActiveConn Tx)
    → Memᴰ bound (prune channels is_closed e).0.bounds
      ↔ (Memᴰ bound e.bounds × ((is_closed bound.tx ≡ false) × IsCurrent e bound))
unfolding prune
prune_iff channels is_closed e bound = (
  λ m.
      let r = retain-mem (keeps is_closed e) e.bounds bound m in
      (r.0, (keeps-IsCurrent is_closed e bound).0 r.1),
  λ h.
      mem-retain (keeps is_closed e) e.bounds bound h.0 ((keeps-IsCurrent is_closed e bound).1 h.1),
)

twice :
    {A : Type 0} (b : Bool) (o : Option A)
    → (if b then (if b then o else none) else none) ≡ (if b then o else none)
twice true o = refl
twice false o = refl

guarded_iff :
    {A : Type 0} (b : Bool) (o : Option A) (s : A)
    → ((if b then o else none) ≡ some s) ↔ ((o ≡ some s) × (b ≡ true))
guarded_iff true o s = (λ h. (h, refl), λ h. h.0)
guarded_iff false o s = (λ h. ground arith, λ h. ground arith)

not-false : (b : Bool) → not b ≡ false → b ≡ true
not-false true h = refl
not-false false h = sym h

unchanged_iff :
    {Tx : Type 0} (channels : Channels Tx) (a b : Option Tx)
    → (first_changed channels a b ≡ false) ↔ (b ≡ a)
unchanged_iff channels none none = (λ h. refl, λ h. refl)
unchanged_iff channels (some old) none = (λ h. ground arith, λ h. ground arith)
unchanged_iff channels none (some new) = (λ h. ground arith, λ h. ground arith)
unchanged_iff channels (some old) (some new) = (
  λ h.
      ap some
        (sym ((channels.same_channel_iff old new).0 (not-false (channels.same_channel old new) h))),
  λ h. rw ((channels.same_channel_iff old new).1 (sym (some-injective new old h))) refl,
)

-- The dial state of an address is kept exactly while the name has the address.
pub prune-dials :
    {Net Tx : Type 0} (channels : Channels Tx) (is_closed : Tx → Bool) (e : PeerEntry Net Tx)
    (ip : IpAddr) (s : DialState)
    → ((prune channels is_closed e).0.dials ip ≡ some s)
      ↔ ((e.dials ip ≡ some s) × Memᴰ ip e.resolved_ips)
unfolding prune
prune-dials channels is_closed e ip s =
    let guarded = guarded_iff (contains e.resolved_ips ip) (e.dials ip) s in
    let member = contains_iff e.resolved_ips ip in
    (λ h. let r = guarded.0 h in (r.0, member.0 r.1), λ h. guarded.1 (h.0, member.1 h.1))

-- A second `prune` with the same channels closed changes nothing and reports no change.
pub prune-prune :
    {Net Tx : Type 0} (channels : Channels Tx) (is_closed : Tx → Bool) (e : PeerEntry Net Tx)
    → prune channels is_closed (prune channels is_closed e).0
      ≡ ((prune channels is_closed e).0, false)
unfolding prune keeps config_endpoint
prune-prune channels is_closed e =
    let e' = (prune channels is_closed e).0 in
    let steady : (prune channels is_closed e').0 ≡ e' = λ i. record e' {
      bounds = retain-retain (keeps is_closed e) e.bounds i;
      dials = λ ip. twice (contains e.resolved_ips ip) (e.dials ip) i;
    } in
    ap (λ x. (x, first_changed channels (preferred_tx e') (preferred_tx x))) steady
    ∙ ap (λ (b : Bool). (e', b))
        ((unchanged_iff channels (preferred_tx e') (preferred_tx e')).1 refl)

-- If `prune` reports no change, packets go to the same channel as before, or still to none.
pub prune-unchanged :
    {Net Tx : Type 0} (channels : Channels Tx) (is_closed : Tx → Bool) (e : PeerEntry Net Tx)
    → ((prune channels is_closed e).1 ≡ false)
      ↔ (preferred_tx (prune channels is_closed e).0 ≡ preferred_tx e)
unfolding prune
prune-unchanged channels is_closed e =
    unchanged_iff channels (preferred_tx e) (preferred_tx (prune channels is_closed e).0)
