-- ===== src/Route.antt =====
-- The routes of the system for the TUN device (src/route.rs). The prefixes of ipnet, the routes of
-- route_manager and the handle on the table of the system are parameters. A hash set is a list
-- without repetitions in the order of iteration.
pub mod Actor
pub mod Desired
pub mod Stale
pub mod Synced
use h3llo.Base.{
  ℕ, List, [], ◌∷◌, ◌++◌, Option, none, some, Bool, true, false, not, ◌||◌, ◌==◌, leb, String,
  if◌then◌else◌, map, any, retain, Result, ok, err,
}
use h3llo.Net.{IpAddr, v4}

-- What is asked of prefixes: `==`, the prefix without its host bits, the prefix of one address, the
-- two ends of an IPv4 prefix as prefixes of one address, and what an IPv6 prefix is kept for.
pub record RouteNets (Net : Type 0) : Type 0 where
  pub same : Net → Net → Bool
  pub new : IpAddr → ℕ → Option Net
  pub addr : Net → IpAddr
  pub prefix_len : Net → ℕ
  pub is_v4 : Net → Bool
  pub trunc : Net → Net
  pub host : IpAddr → Net
  pub network : Net → IpAddr
  pub broadcast : Net → IpAddr
  pub contains : Net → Net → Bool
  pub subnets : Net → ℕ → Option (List Net)
  pub is_unicast_link_local : IpAddr → Bool
  pub is_multicast : IpAddr → Bool

-- What is asked of routes: `new` takes the destination, its length and the interface.
pub record Routes (Route : Type 0) : Type 0 where
  pub new : IpAddr → ℕ → ℕ → Route
  pub destination : Route → IpAddr
  pub prefix : Route → ℕ
  pub if_index : Route → Option ℕ

-- `RouteHandle`, on the state `S` of the system.
pub record RouteHandle (Route S : Type 0) : Type 0 where
  pub list : S → Result (List Route) String
  pub add : S → Route → Result (Unit {0}) String × S
  pub delete : S → Route → Result (Unit {0}) String × S

pub data RouteSyncError : Type 0 where
  interface_lookup : String → RouteSyncError
  list_failed : String → RouteSyncError

module _ {Net : Type 0} (nets : RouteNets Net) where
  abbrev pub has_net : List Net → Net → Bool
  has_net set net = any (λ other. nets.same other net) set

  -- `HashSet::insert`.
  abbrev pub insert_net : Net → List Net → List Net
  insert_net net set = if has_net set net then set else net ∷ set

  abbrev pub first_two : Option (List Net) → Option (Net × Net)
  first_two (some (a ∷ b ∷ more)) = some (a, b)
  first_two _ = none

  unfoldable pub split_default_prefix : Net → Option (Net × Net)
  split_default_prefix net =
      if not (nets.prefix_len net == 0) then none else first_two (nets.subnets net 1)

  abbrev pub insert_split : Net → Option (Net × Net) → List Net → List Net
  insert_split net none set = insert_net net set
  insert_split net (some (a, b)) set = insert_net b (insert_net a set)

  -- The set of the prefixes, each default route in two halves.
  unfoldable pub expand_allowed_prefixes : List Net → List Net
  expand_allowed_prefixes [] = []
  expand_allowed_prefixes (net ∷ allowed) =
      let result = expand_allowed_prefixes allowed in
      if nets.prefix_len net == 0
      then insert_split net (split_default_prefix net) result
      else insert_net net result

  unfoldable pub is_ipv6_kernel_route : Net → Bool
  is_ipv6_kernel_route net =
      if nets.is_v4 net
      then false
      else nets.is_unicast_link_local (nets.network net) || nets.is_multicast (nets.network net)

  unfoldable pub desired_routes : List Net → List Net → List Net
  desired_routes tun_addrs allowed =
      retain (λ net. not (any (λ prefix. nets.contains prefix net) (map nets.trunc tun_addrs)))
        (expand_allowed_prefixes allowed)

  abbrev pub kernel_routes_of : Net → List Net
  kernel_routes_of addr =
      nets.trunc addr
      ∷ nets.host (nets.addr addr)
      ∷ (if nets.is_v4 (nets.trunc addr)
          then (if leb (nets.prefix_len (nets.trunc addr)) 30
              then nets.host (nets.network (nets.trunc addr))
                ∷ nets.host (nets.broadcast (nets.trunc addr))
                ∷ []
              else [])
          else [])

  -- What is collected from the addresses, and 255.255.255.255/32.
  unfoldable pub tun_v4_kernel_routes : List Net → List Net
  tun_v4_kernel_routes [] = nets.host (v4 0xFFFFFFFF) ∷ []
  tun_v4_kernel_routes (addr ∷ tun_addrs) = kernel_routes_of addr ++ tun_v4_kernel_routes tun_addrs

  module _ {Route : Type 0} (routes : Routes Route) where
    abbrev pub ipnet_from_route : Route → Option Net
    ipnet_from_route route = nets.new (routes.destination route) (routes.prefix route)

    -- `route.if_index() == Some(tun_ifindex)`.
    abbrev pub is_index : Option ℕ → ℕ → Bool
    is_index none tun_ifindex = false
    is_index (some i) tun_ifindex = i == tun_ifindex

    abbrev pub tun_route : ℕ → Net → Route
    tun_route tun_ifindex net = routes.new (nets.addr net) (nets.prefix_len net) tun_ifindex

    module _ {S : Type 0} (handle : RouteHandle Route S) (tun_ifindex : ℕ)
        (desired managed : List Net) where
      -- The tests of the loop: the route is on the TUN device, its prefix is desired, its prefix is
      -- managed by the system.
      abbrev pub visit_net : Bool → Bool → Bool → Route → Net → List Net × S → List Net × S
      visit_net true true is_managed route net (existing, s) = (insert_net net existing, s)
      visit_net true false true route net (existing, s) = (existing, s)
      visit_net true false false route net (existing, s) = (existing, (handle.delete s route).1)
      visit_net false is_desired is_managed route net (existing, s) = (existing, s)

      abbrev pub visit : Route → Option Net → List Net × S → List Net × S
      visit route none acc = acc
      visit route (some net) acc =
          visit_net (is_index (routes.if_index route) tun_ifindex) (has_net desired net)
            (has_net managed net || is_ipv6_kernel_route net) route net acc

      -- The loop over the routes of the system.
      unfoldable pub remove_stale : List Route → List Net × S → List Net × S
      remove_stale [] acc = acc
      remove_stale (route ∷ rest) acc = remove_stale rest (visit route (ipnet_from_route route) acc)

    module _ {S : Type 0} (handle : RouteHandle Route S) (tun_ifindex : ℕ) where
      abbrev pub add_unless : Bool → Net → S → S
      add_unless true net s = s
      add_unless false net s = (handle.add s (tun_route tun_ifindex net)).1

      -- The loop over the desired routes.
      unfoldable pub add_missing : List Net → List Net → S → S
      add_missing existing [] s = s
      add_missing existing (net ∷ rest) s =
          add_missing existing rest (add_unless (has_net existing net) net s)

    module _ {S : Type 0} (handle : RouteHandle Route S) where
      abbrev pub sync_listed :
          ℕ
          → List Net
          → List Net
          → S
          → Result (List Route) String
          → Result (Unit {0}) RouteSyncError × S
      sync_listed tun_ifindex tun_addrs allowed s (err error) = (err (list_failed error), s)
      sync_listed tun_ifindex tun_addrs allowed s (ok listed) =
          let desired = desired_routes tun_addrs allowed in
          let managed = tun_v4_kernel_routes tun_addrs in
          let (existing, s') = remove_stale handle tun_ifindex desired managed listed ([], s) in
          (ok tt, add_missing handle tun_ifindex existing desired s')

      abbrev pub sync_resolved :
          List Net → List Net → S → Result ℕ RouteSyncError → Result (Unit {0}) RouteSyncError × S
      sync_resolved tun_addrs allowed s (err error) = (err error, s)
      sync_resolved tun_addrs allowed s (ok tun_ifindex) =
          sync_listed tun_ifindex tun_addrs allowed s (handle.list s)

      -- `sync_tun_routes`, with the answer of the resolver for the TUN device.
      unfoldable pub sync_tun_routes :
          Result ℕ RouteSyncError → List Net → List Net → S → Result (Unit {0}) RouteSyncError × S
      sync_tun_routes resolved tun_addrs allowed s = sync_resolved tun_addrs allowed s resolved
