-- ===== src/Route/Actor.antt =====
-- The route actor (`spawn_route` of src/route.rs): its loop over the mailbox, and what a run leaves
-- alone. A closed mailbox is the end of the list.
use h3llo.Base.{
  ℕ, List, [], ◌∷◌, String, true, false, ◌==◌, ==_iff, Result, ok, err, ◌≡◌, ◌↔◌, refl, sym, ap,
  ◌∙◌, subst, some, Memᴰ, inl, inr, iff_trans, arith,
}
use h3llo.Net.{IpAddr}
use h3llo.Route.{
  RouteNets, Routes, RouteHandle, RouteSyncError, is_index, tun_route, sync_tun_routes,
}
use h3llo.Route.Stale.{RouteTable}
use h3llo.Route.Synced.{sync_tun_routes_iff}

-- The events of the mailbox: `SyncRoutes`, `Stop`, and any other.
pub data RouteEvent (Net : Type 0) : Type 0 where
  sync_routes : (tun_addrs allowed : List Net) → RouteEvent Net
  stop : RouteEvent Net
  unexpected : RouteEvent Net

-- The resolver answers for the name of an interface, in a state of the system.
pub record RouteActor (Route S : Type 0) : Type 0 where
  pub handle : RouteHandle Route S
  pub resolver : S → String → Result ℕ RouteSyncError

module _ {Net : Type 0} (nets : RouteNets Net) {Route : Type 0} (routes : Routes Route) {S : Type 0}
    (actor : RouteActor Route S) (tun_if : String) where
  -- A synchronization that fails is logged, and the loop goes on.
  unfoldable pub route_run : List (RouteEvent Net) → S → S
  route_run [] s = s
  route_run (sync_routes tun_addrs allowed ∷ rest) s =
      route_run rest
        (sync_tun_routes nets routes actor.handle (actor.resolver s tun_if) tun_addrs allowed s).1
  route_run (stop ∷ rest) s = s
  route_run (unexpected ∷ rest) s = route_run rest s

module _ {Net : Type 0} (nets : RouteNets Net)
    (same_iff : (a b : Net) → (nets.same a b ≡ true) ↔ (a ≡ b)) {Route : Type 0}
    (routes : Routes Route)
    (if_index-new : (ip : IpAddr) (len i : ℕ) → routes.if_index (routes.new ip len i) ≡ some i)
    (tun_ifindex : ℕ) where
  -- The route is not on the TUN device.
  abbrev pub IsElsewhere : Route → Type 0
  IsElsewhere x = is_index nets routes (routes.if_index x) tun_ifindex ≡ false

  not-IsElsewhere-tun_route :
      (x : Route) (net : Net) → x ≡ tun_route nets routes tun_ifindex net → ¬ IsElsewhere x
  not-IsElsewhere-tun_route x net e away =
      let index : routes.if_index x ≡ some tun_ifindex =
        ap (λ (r : Route). routes.if_index r) e
        ∙ if_index-new (nets.addr net) (nets.prefix_len net) tun_ifindex in
      let same : (tun_ifindex == tun_ifindex) ≡ false =
        sym (ap (λ o. is_index nets routes o tun_ifindex) index) ∙ away in
      let holds : (tun_ifindex == tun_ifindex) ≡ true = (==_iff tun_ifindex tun_ifindex).1 refl in
      ground arith

  module _ {S : Type 0} (handle : RouteHandle Route S) (t : RouteTable handle) where
    sync_ok-IsElsewhere :
        (tun_addrs allowed : List Net) (s : S) (x : Route)
        → IsElsewhere x
        → Memᴰ x
            (t.table (sync_tun_routes nets routes handle (ok tun_ifindex) tun_addrs allowed s).1)
          ↔ Memᴰ x (t.table s)
    sync_ok-IsElsewhere tun_addrs allowed s x away =
        iff_trans
          ((sync_tun_routes_iff nets same_iff routes tun_ifindex handle t tun_addrs allowed s).1 x)
          (
            λ h. elim h [
              | inl k ↦ k.0
              | inr k ↦ absurd (not-IsElsewhere-tun_route x k.0 k.1.1.1 away)
            ],
            λ m. inl (m, λ stale. let both : true ≡ false = sym stale.1.0.0 ∙ away in ground arith),
          )

    sync_tun_routes-IsElsewhere :
        (tun_addrs allowed : List Net) (s : S) (x : Route)
        → IsElsewhere x
        → (resolved : Result ℕ RouteSyncError) → ((i : ℕ) → resolved ≡ ok i → i ≡ tun_ifindex)
        → Memᴰ x (t.table (sync_tun_routes nets routes handle resolved tun_addrs allowed s).1)
          ↔ Memᴰ x (t.table s)
    unfolding sync_tun_routes
    sync_tun_routes-IsElsewhere tun_addrs allowed s x away (err e) names = (λ m. m, λ m. m)
    sync_tun_routes-IsElsewhere tun_addrs allowed s x away (ok i) names =
        subst
          (λ n.
            Memᴰ x (t.table (sync_tun_routes nets routes handle (ok n) tun_addrs allowed s).1)
            ↔ Memᴰ x (t.table s))
          (sym (names i refl)) (sync_ok-IsElsewhere tun_addrs allowed s x away)

    -- On a table on which every operation succeeds, where the test on prefixes is equality, where a
    -- new route has the interface that it was made with, and where the resolver, when it answers,
    -- gives the TUN device's index: however often the actor is asked to synchronize, and with
    -- whichever prefixes, a route that is not on the TUN device is in the table after the run
    -- exactly if it was there before.
    pub route_run-IsElsewhere :
        (resolver : S → String → Result ℕ RouteSyncError)
        → (tun_if : String) → ((s : S) (i : ℕ) → resolver s tun_if ≡ ok i → i ≡ tun_ifindex)
        → (mailbox : List (RouteEvent Net)) → (s : S) → (x : Route) → IsElsewhere x
        → Memᴰ x (
            t.table (
              route_run nets routes
                (record { handle = handle; resolver = resolver })
                tun_if
                mailbox
                s))
          ↔ Memᴰ x (t.table s)
    unfolding route_run
    route_run-IsElsewhere resolver tun_if names [] s x away = (λ m. m, λ m. m)
    route_run-IsElsewhere resolver tun_if names (sync_routes tun_addrs allowed ∷ rest) s x away =
        iff_trans (route_run-IsElsewhere resolver tun_if names rest _ x away)
          (sync_tun_routes-IsElsewhere tun_addrs allowed s x away (resolver s tun_if) (names s))
    route_run-IsElsewhere resolver tun_if names (stop ∷ rest) s x away = (λ m. m, λ m. m)
    route_run-IsElsewhere resolver tun_if names (unexpected ∷ rest) s x away =
        route_run-IsElsewhere resolver tun_if names rest s x away
