-- ===== src/Examples/Routes.antt =====
-- IPv4 prefixes and a table of routes that is a list; the TUN device has the index 7.
use h3llo.Base.{
  ℕ, ◌+◌, ◌-◌, ◌*◌, ◌/◌, ◌^◌, ◌==◌, ==_iff, leb, List, [], ◌∷◌, none, some, Bool, true, false, not,
  ◌&&◌, ◌≡◌, ◌↔◌, refl, sym, ap, subst, if◌then◌else◌, retain, retain-mem, mem-retain, Memᴰ, Result,
  ok, err, String, inl, inr, arith, iff_trans, not_iff, false_iff, iff_not,
}
use mathlib.Core.List.Memᴰ.{head, tail}
use h3llo.Net.{IpAddr, v4, same_addr, same_addr_iff}
use h3llo.Route.{
  RouteNets, Routes, RouteHandle, RouteSyncError, interface_lookup, desired_routes,
  expand_allowed_prefixes, split_default_prefix, tun_route, tun_v4_kernel_routes,
  is_ipv6_kernel_route, remove_stale, add_missing, sync_tun_routes,
}
use h3llo.Route.Actor.{RouteEvent, sync_routes, stop, unexpected, route_run, route_run-IsElsewhere}
use h3llo.Route.Stale.{RouteTable, IsOnTun}
use h3llo.Route.Synced.{IsSynced, sync_tun_routes_iff}

record Block : Type 0 where
  ip : IpAddr
  len : ℕ

abbrev bits : IpAddr → ℕ
bits (v4 a) = a
bits (IpAddr.v6 a) = a

abbrev size : Block → ℕ
size b = 2 ^ (32 - b.len)

abbrev base : Block → ℕ
base b = bits b.ip / size b * size b

abbrev same_block : Block → Block → Bool
same_block a b = same_addr a.ip b.ip && a.len == b.len

same_block_iff : (a b : Block) → (same_block a b ≡ true) ↔ (a ≡ b)
same_block_iff a b = (
  λ h.
      let ips : a.ip ≡ b.ip = (same_addr_iff a.ip b.ip).0 (ground arith) in
      let lens : a.len ≡ b.len = ground arith in λ i. record { ip = ips i; len = lens i },
  λ e.
      let ips = (same_addr_iff a.ip b.ip).1 (ap (λ (x : Block). x.ip) e) in
      let lens = (==_iff a.len b.len).1 (ap (λ (x : Block). x.len) e) in ground arith,
)

abbrev blocks : RouteNets Block
blocks = record {
  same = same_block;
  new = λ ip len. if leb len 32 then some (record { ip = ip; len = len }) else none;
  addr = λ b. b.ip;
  prefix_len = λ b. b.len;
  is_v4 = λ b. true;
  trunc = λ b. record { ip = v4 (base b); len = b.len };
  host = λ ip. record { ip = ip; len = 32 };
  network = λ b. v4 (base b);
  broadcast = λ b. v4 (base b + size b - 1);
  contains = λ a b. leb a.len b.len && (bits b.ip / size a) == (bits a.ip / size a);
  subnets = λ b len. some (
      record { ip = v4 (base b); len = b.len + 1 }
      ∷ record { ip = v4 (base b + 2 ^ (31 - b.len)); len = b.len + 1 }
      ∷ []);
  is_unicast_link_local = λ ip. false;
  is_multicast = λ ip. false;
}

record Entry : Type 0 where
  destination : IpAddr
  prefix : ℕ
  index : ℕ

abbrev entries : Routes Entry
entries = record {
  new = λ ip len i. record { destination = ip; prefix = len; index = i };
  destination = λ e. e.destination;
  prefix = λ e. e.prefix;
  if_index = λ e. some e.index;
}

abbrev same_entry : Entry → Entry → Bool
same_entry a b =
    same_addr a.destination b.destination && (a.prefix == b.prefix && a.index == b.index)

same_entry_iff : (a b : Entry) → (same_entry a b ≡ true) ↔ (a ≡ b)
same_entry_iff a b = (
  λ h.
      let ips : a.destination ≡ b.destination =
        (same_addr_iff a.destination b.destination).0 (ground arith) in
      let lens : a.prefix ≡ b.prefix = ground arith in
      let indexes : a.index ≡ b.index = ground arith in
      λ i. record { destination = ips i; prefix = lens i; index = indexes i },
  λ e.
      let ips =
        (same_addr_iff a.destination b.destination).1 (ap (λ (x : Entry). x.destination) e) in
      let lens = (==_iff a.prefix b.prefix).1 (ap (λ (x : Entry). x.prefix) e) in
      let indexes = (==_iff a.index b.index).1 (ap (λ (x : Entry). x.index) e) in ground arith,
)

abbrev handle : RouteHandle Entry (List Entry)
handle = record {
  list = λ s. ok s;
  add = λ s r. (ok tt, r ∷ s);
  delete = λ s r. (ok tt, retain (λ x. not (same_entry x r)) s);
}

abbrev listed : RouteTable handle
listed = record {
  table = λ s. s;
  list-table = λ s. refl;
  mem-add = λ s r x. (
    λ m. elim m [ head same ↦ inr same | tail below ↦ inl below ],
    λ h. elim h [ inl m ↦ tail m | inr e ↦ head e ],
  );
  mem-delete = λ s r x.
      let other =
        iff_trans (not_iff (same_entry x r))
          (iff_trans (false_iff (same_entry x r)) (iff_not (same_entry_iff x r))) in
      (
        λ m. let k = retain-mem (λ y. not (same_entry y r)) s x m in (k.0, other.0 k.1),
        λ h. mem-retain (λ y. not (same_entry y r)) s x h.0 (other.1 h.1),
      );
}

-- 10.0.0.1/24
abbrev tun_addrs : List Block
tun_addrs = record { ip = v4 0x0a000001; len = 24 } ∷ []

-- 10.1.0.0/16, 0.0.0.0/0 and, within the TUN's own prefix, 10.0.0.9/32
abbrev allowed : List Block
allowed =
    record { ip = v4 0x0a010000; len = 16 }
    ∷ record { ip = v4 0; len = 0 }
    ∷ record { ip = v4 0x0a000009; len = 32 }
    ∷ []

-- A stale route, the TUN's own route, a route of another device, and a desired route.
abbrev own : Entry
own = record { destination = v4 0x0a000000; prefix = 24; index = 7 }

abbrev foreign : Entry
foreign = record { destination = v4 0x0a090000; prefix = 16; index = 2 }

abbrev half : Entry
half = record { destination = v4 0; prefix = 1; index = 7 }

abbrev before : List Entry
before = record { destination = v4 0x0a090000; prefix = 16; index = 7 } ∷ own ∷ foreign ∷ half ∷ []

after :
    (sync_tun_routes blocks entries handle (ok 7) tun_addrs allowed before).1
    ≡ record { destination = v4 0x80000000; prefix = 1; index = 7 }
      ∷ record { destination = v4 0x0a010000; prefix = 16; index = 7 }
      ∷ own
      ∷ foreign
      ∷ half
      ∷ []
unfolding sync_tun_routes add_missing desired_routes expand_allowed_prefixes split_default_prefix
    same_addr remove_stale tun_v4_kernel_routes is_ipv6_kernel_route
after = refl

sync_tun_routes_iff_example :
    ((sync_tun_routes blocks entries handle (ok 7) tun_addrs allowed before).0 ≡ ok tt)
    × ((x : Entry)
        → Memᴰ x (sync_tun_routes blocks entries handle (ok 7) tun_addrs allowed before).1
          ↔ IsSynced blocks entries 7
              (desired_routes blocks tun_addrs allowed)
              (tun_v4_kernel_routes blocks tun_addrs)
              before
              x)
sync_tun_routes_iff_example =
    sync_tun_routes_iff blocks same_block_iff entries 7 handle listed tun_addrs allowed before

reads :
    (net : Block)
    → Memᴰ net (desired_routes blocks tun_addrs allowed)
    → IsOnTun blocks entries 7 (tun_route blocks entries 7 net) net
unfolding desired_routes expand_allowed_prefixes split_default_prefix same_addr
reads net (head same) =
    subst (λ n. IsOnTun blocks entries 7 (tun_route blocks entries 7 n) n) (sym same) (refl, refl)
reads net (tail (head same)) =
    subst (λ n. IsOnTun blocks entries 7 (tun_route blocks entries 7 n) n) (sym same) (refl, refl)
reads net (tail (tail (head same))) =
    subst (λ n. IsOnTun blocks entries 7 (tun_route blocks entries 7 n) n) (sym same) (refl, refl)
reads net (tail (tail (tail m))) = elim m [ ]

-- The device has no index while the table is empty.
abbrev resolver : List Entry → String → Result ℕ RouteSyncError
resolver [] tun_if = err (interface_lookup tun_if)
resolver (e ∷ es) tun_if = ok 7

names : (s : List Entry) (i : ℕ) → resolver s "tun0" ≡ ok i → i ≡ 7
names [] i e = cc
names (x ∷ xs) i e = let same : i ≡ 7 = cc in same

abbrev mailbox : List (RouteEvent Block)
mailbox =
    unexpected
    ∷ sync_routes tun_addrs allowed
    ∷ sync_routes tun_addrs []
    ∷ stop
    ∷ sync_routes tun_addrs allowed
    ∷ []

served :
    route_run blocks entries (record { handle = handle; resolver = resolver }) "tun0" mailbox before
    ≡ own ∷ foreign ∷ []
unfolding route_run sync_tun_routes add_missing desired_routes expand_allowed_prefixes
    split_default_prefix same_addr remove_stale tun_v4_kernel_routes is_ipv6_kernel_route
served = refl

route_run-IsElsewhere_example :
    Memᴰ foreign (
      route_run blocks entries
        (record { handle = handle; resolver = resolver })
        "tun0"
        mailbox
        before)
    ↔ Memᴰ foreign before
route_run-IsElsewhere_example =
    route_run-IsElsewhere blocks same_block_iff entries (λ ip len i. refl) 7 handle listed resolver
      "tun0" names mailbox before foreign refl

-- 10.1.0.0/16 is wanted, as the upper half of the default route is; the TUN's own prefix is not.
desired :
    desired_routes blocks tun_addrs allowed
    ≡ record { ip = v4 0x0a010000; len = 16 }
      ∷ record { ip = v4 0x80000000; len = 1 }
      ∷ record { ip = v4 0; len = 1 }
      ∷ []
unfolding desired_routes expand_allowed_prefixes split_default_prefix same_addr
desired = refl
