-- ===== src/Bind.antt =====
-- The choice of the interface for an outgoing connection (src/bind.rs), on Linux. The routes of
-- route_manager and the prefixes of ipnet are parameters.
pub mod Sorted
pub mod Picked
pub mod Preference
pub mod Ranked
pub mod Preferred
use h3llo.Base.{
  ℕ, ◌==◌, ltb, List, [], ◌∷◌, Option, none, some, Bool, true, false, not, String, str_eq,
  if◌then◌else◌, any, retain, map, Result, ok, err,
}
use h3llo.Base.Text.{trim}
use h3llo.Config.Uri.{and_then}
use h3llo.Net.{IpAddr}

-- What is asked of a route; `matches` says that the prefix of the route is one, and contains the address.
pub record Routes (Route : Type 0) : Type 0 where
  pub if_index : Route → Option ℕ
  pub prefix : Route → ℕ
  pub contains : Route → IpAddr → Option Bool
  pub table : Route → ℕ
  pub metric : Route → Option ℕ

-- `libc::RT_TABLE_MAIN`.
abbrev pub rt_table_main : ℕ
rt_table_main = 254

-- The tuple of `route_match`.
pub record Candidate : Type 0 where
  pub prefix_len : ℕ
  pub is_main : Bool
  pub metric : Option ℕ
  pub ifindex : ℕ

abbrev pub metric_of : Candidate → ℕ
metric_of m = elim m.metric [ none ↦ 0 | some n ↦ n ]

-- The order of the sort: the first is not after the second.
abbrev pub not_after_metric : Candidate → Candidate → Bool
not_after_metric a b = not (ltb (metric_of b) (metric_of a))

abbrev pub not_after_main : Bool → Bool → Candidate → Candidate → Bool
not_after_main true false a b = true
not_after_main false true a b = false
not_after_main true true a b = not_after_metric a b
not_after_main false false a b = not_after_metric a b

abbrev pub not_after : Candidate → Candidate → Bool
not_after a b =
    if ltb b.prefix_len a.prefix_len
    then true
    else if ltb a.prefix_len b.prefix_len
    then false
    else not_after_main a.is_main b.is_main a b

-- `sort_by`, which keeps the order of equal elements.
unfoldable pub insert_match : Candidate → List Candidate → List Candidate
insert_match m [] = m ∷ []
insert_match m (other ∷ rest) =
    let below = insert_match m rest in if not_after m other then m ∷ other ∷ rest else other ∷ below

unfoldable pub sort_matches : List Candidate → List Candidate
sort_matches [] = []
sort_matches (m ∷ rest) = insert_match m (sort_matches rest)

abbrev pub is_tun_index : Option ℕ → ℕ → Bool
is_tun_index none idx = false
is_tun_index (some i) idx = i == idx

-- The two filters, with the indexes seen so far.
abbrev pub pick_if : Bool → Bool → ℕ → (List ℕ → List ℕ) → List ℕ → List ℕ
pick_if true is_seen idx rest seen = rest seen
pick_if false true idx rest seen = rest seen
pick_if false false idx rest seen = idx ∷ rest (idx ∷ seen)

unfoldable pub pick_indexes : Option ℕ → List Candidate → List ℕ → List ℕ
pick_indexes tun_index [] seen = []
pick_indexes tun_index (m ∷ rest) seen =
    pick_if (is_tun_index tun_index m.ifindex) (any (λ other. other == m.ifindex) seen) m.ifindex
      (λ seen'. pick_indexes tun_index rest seen') seen

module _ {Route : Type 0} (routes : Routes Route) where
  abbrev pub match_contained : Route → ℕ → Option Bool → Option Candidate
  match_contained route ifindex (some true) = some (record {
    prefix_len = routes.prefix route;
    is_main = routes.table route == rt_table_main;
    metric = routes.metric route;
    ifindex = ifindex;
  })
  match_contained route ifindex _ = none

  abbrev pub match_index : Route → IpAddr → Option ℕ → Option Candidate
  match_index route target none = none
  match_index route target (some ifindex) =
      match_contained route ifindex (routes.contains route target)

  unfoldable pub route_match : Route → IpAddr → Option Candidate
  route_match route target = match_index route target (routes.if_index route)

  abbrev pub cons_some : Option Candidate → List Candidate → List Candidate
  cons_some none rest = rest
  cons_some (some m) rest = m ∷ rest

  -- `filter_map`.
  unfoldable pub matches_of : List Route → IpAddr → List Candidate
  matches_of [] target = []
  matches_of (route ∷ rest) target = cons_some (route_match route target) (matches_of rest target)

  unfoldable pub matching_route_indexes : List Route → IpAddr → Option ℕ → List ℕ
  matching_route_indexes listed target tun_index =
      pick_indexes tun_index (sort_matches (matches_of listed target)) []

-- The names that are kept, by the set of the preferred ones.
abbrev pub filter_allowed : List String → List String → List String
filter_allowed [] names = []
filter_allowed (iface ∷ allowed) names =
    retain (λ name. any (λ other. str_eq other name) (iface ∷ allowed)) names

unfoldable pub filter_preferred_interfaces : List String → Option (List String) → List String
filter_preferred_interfaces names none = names
filter_preferred_interfaces names (some preferred) =
    filter_allowed (retain (λ iface. not (str_eq iface "")) (map trim preferred)) names

-- The errors of a probe.
pub data RouteProbeError : Type 0 where
  probe_failed : String → RouteProbeError
  interface_lookup : ℕ → String → RouteProbeError

abbrev pub push_name :
    ℕ
    → Result String String
    → Result (List String) RouteProbeError
    → Result (List String) RouteProbeError
push_name ifindex (err error) rest = err (interface_lookup ifindex error)
push_name ifindex (ok name) (ok names) = ok (name ∷ names)
push_name ifindex (ok name) (err error) = err error

-- The loop over the indexes; `ifindex_to_name` asks the system.
unfoldable pub names_of : (ℕ → Result String String) → List ℕ → Result (List String) RouteProbeError
names_of ifindex_to_name [] = ok []
names_of ifindex_to_name (ifindex ∷ rest) =
    push_name ifindex (ifindex_to_name ifindex) (names_of ifindex_to_name rest)

module _ {Route : Type 0} (routes : Routes Route) where
  abbrev pub probe_listed :
      (ℕ → Result String String)
      → IpAddr
      → Option ℕ
      → Result (List Route) String
      → Result (List String) RouteProbeError
  probe_listed ifindex_to_name target tun_index (err error) = err (probe_failed error)
  probe_listed ifindex_to_name target tun_index (ok listed) =
      names_of ifindex_to_name (matching_route_indexes routes listed target tun_index)

  -- `probe_interfaces_impl`, with what the system answers to the list and to the name of the device.
  unfoldable pub probe_interfaces :
      (String → Option ℕ)
      → (ℕ → Result String String)
      → Result (List Route) String
      → IpAddr
      → Option String
      → Result (List String) RouteProbeError
  probe_interfaces lookup_ifindex ifindex_to_name listed target tun_if =
      probe_listed ifindex_to_name target (and_then tun_if lookup_ifindex) listed

abbrev pub or_all : List String → List String → List String
or_all [] interfaces = interfaces
or_all (name ∷ filtered) interfaces = name ∷ filtered

abbrev pub candidates_of : Option String → List String → List String
candidates_of none interfaces = interfaces
candidates_of (some preferred) interfaces =
    or_all (filter_preferred_interfaces interfaces (some (preferred ∷ []))) interfaces

abbrev pub first_name : List String → Option String
first_name [] = none
first_name (chosen ∷ candidates) = some chosen

-- `select_bind_interface`, with the answer of the probe.
unfoldable pub select_bind_interface :
    Result (List String) RouteProbeError → Option String → Option String
select_bind_interface (err error) preferred_if = none
select_bind_interface (ok []) preferred_if = none
select_bind_interface (ok (name ∷ interfaces)) preferred_if =
    first_name (candidates_of preferred_if (name ∷ interfaces))
