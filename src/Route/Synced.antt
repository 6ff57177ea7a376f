-- ===== src/Route/Synced.antt =====
-- The routes of the system after a synchronization.
use h3llo.Base.{
  ℕ, List, [], ◌∷◌, Bool, true, false, ◌≡◌, ◌↔◌, ◌⊎◌, refl, sym, subst, Memᴰ, ok, inl, inr,
  iff_trans, false_iff, arith,
}
use mathlib.Core.List.Memᴰ.{head, tail}
use h3llo.Route.{
  RouteNets, Routes, RouteHandle, has_net, desired_routes, tun_v4_kernel_routes, tun_route,
  remove_stale, add_unless, add_missing, sync_listed, sync_tun_routes,
}
use h3llo.Route.Stale.{
  RouteTable, has_net_iff, IsOnTun, IsStale, not-IsStale, remove_stale-table, remove_stale-IsFound,
}

module _ {Net : Type 0} (nets : RouteNets Net) {Route : Type 0} (routes : Routes Route)
    (tun_ifindex : ℕ) where
  -- No route of the table is on the TUN device with this prefix.
  abbrev pub IsMissing : List Route → Net → Type 0
  IsMissing rs net = ¬ ((r : Route) × (Memᴰ r rs × IsOnTun nets routes tun_ifindex r net))

  -- What a route of the table is after the synchronization.
  abbrev pub IsSynced : List Net → List Net → List Route → Route → Type 0
  IsSynced desired managed before x =
      (Memᴰ x before × (¬ IsStale nets routes tun_ifindex desired managed x))
      ⊎ ((net : Net) × (Memᴰ net desired
            × (IsMissing before net × (x ≡ tun_route nets routes tun_ifindex net))))

module _ {Net : Type 0} (nets : RouteNets Net)
    (same_iff : (a b : Net) → (nets.same a b ≡ true) ↔ (a ≡ b)) {Route : Type 0}
    (routes : Routes Route) (tun_ifindex : ℕ) {S : Type 0} (handle : RouteHandle Route S)
    (t : RouteTable handle) where
  add_unless-table :
      (b : Bool) (net : Net) (s : S) (x : Route)
      → Memᴰ x (t.table (add_unless nets routes handle tun_ifindex b net s))
        ↔ (Memᴰ x (t.table s) ⊎ ((b ≡ false) × (x ≡ tun_route nets routes tun_ifindex net)))
  add_unless-table true net s x = (λ m. inl m, λ h. elim h [ inl m ↦ m | inr k ↦ ground arith ])
  add_unless-table false net s x =
      iff_trans (t.mem-add s (tun_route nets routes tun_ifindex net) x) (
        λ h. elim h [ inl m ↦ inl m | inr e ↦ inr (refl, e) ],
        λ h. elim h [ inl m ↦ inl m | inr k ↦ inr k.1 ],
      )

  -- The route is that of a prefix of the list that is not among the existing ones.
  abbrev IsAdded : List Net → List Net → Route → Type 0
  IsAdded existing list x =
      (net : Net) × (Memᴰ net list
        × ((has_net nets existing net ≡ false) × (x ≡ tun_route nets routes tun_ifindex net)))

  add_missing-table :
      (existing list : List Net) (s : S) (x : Route)
      → Memᴰ x (t.table (add_missing nets routes handle tun_ifindex existing list s))
        ↔ (Memᴰ x (t.table s) ⊎ IsAdded existing list x)
  unfolding add_missing
  add_missing-table existing [] s x =
      (λ m. inl m, λ h. elim h [ inl m ↦ m | inr k ↦ elim k.1.0 [ ] ])
  add_missing-table existing (net ∷ list) s x =
      let first = add_unless-table (has_net nets existing net) net s x in
      iff_trans
        (add_missing-table existing list
          (add_unless nets routes handle tun_ifindex (has_net nets existing net) net s) x)
        (
          λ h. elim h [
            | inl m ↦ elim (first.0 m) [ inl old ↦ inl old | inr k ↦ inr (net, (head refl, k)) ]
            | inr k ↦ inr (k.0, (tail k.1.0, k.1.1))
          ],
          λ h. elim h [
            | inl m ↦ inl (first.1 (inl m))
            | inr (n, (head same, k)) ↦ inl (
                first.1 (
                  inr (
                    subst
                      (λ z.
                        (has_net nets existing z ≡ false)
                        × (x ≡ tun_route nets routes tun_ifindex z))
                      same k)))
            | inr (n, (tail below, k)) ↦ inr (n, (below, k))
          ],
        )

  module _ (tun_addrs allowed : List Net) where
    abbrev desired : List Net
    desired = desired_routes nets tun_addrs allowed

    abbrev managed : List Net
    managed = tun_v4_kernel_routes nets tun_addrs

    found_iff :
        (s : S) (net : Net)
        → Memᴰ net desired
        → (has_net nets
              (remove_stale nets routes handle tun_ifindex desired managed (t.table s) ([], s)).0
              net
            ≡ false)
          ↔ IsMissing nets routes tun_ifindex (t.table s) net
    found_iff s net wanted =
        let existing =
          (remove_stale nets routes handle tun_ifindex desired managed (t.table s) ([], s)).0 in
        let found =
          remove_stale-IsFound nets same_iff routes tun_ifindex desired managed handle t (t.table s)
            [] s net in
        let known = has_net_iff nets same_iff existing net in
        iff_trans (false_iff (has_net nets existing net)) (
          λ n k. n (
              known.1 (
                found.1
                  (inr (k.0, (k.1.0, (k.1.1, (has_net_iff nets same_iff desired net).1 wanted)))))),
          λ n h. elim (found.0 (known.0 h)) [
            | inl m ↦ elim m [ ]
            | inr k ↦ n (k.0, (k.1.0, k.1.1.0))
          ],
        )

    sync_listed-table :
        (s : S) (x : Route)
        → Memᴰ x (
            t.table
              (sync_listed nets routes handle tun_ifindex tun_addrs allowed s (ok (t.table s))).1)
          ↔ IsSynced nets routes tun_ifindex
              (desired_routes nets tun_addrs allowed)
              (tun_v4_kernel_routes nets tun_addrs)
              (t.table s)
              x
    sync_listed-table s x =
        let left =
          remove_stale nets routes handle tun_ifindex desired managed (t.table s) ([], s) in
        let removed =
          remove_stale-table nets same_iff routes tun_ifindex desired managed handle t (t.table s)
            [] s x in
        iff_trans (add_missing-table left.0 desired left.1 x) (
          λ h. elim h [
            | inl m ↦ let r = removed.0 m in inl (r.0, λ stale. r.1 (r.0, stale))
            | inr k ↦ inr (k.0, (k.1.0, ((found_iff s k.0 k.1.0).0 k.1.1.0, k.1.1.1)))
          ],
          λ h. elim h [
            | inl k ↦ inl (removed.1 (k.0, λ both. k.1 both.1))
            | inr k ↦ inr (k.0, (k.1.0, ((found_iff s k.0 k.1.0).1 k.1.1.0, k.1.1.1)))
          ],
        )

    -- On a table on which every operation succeeds, and where the test on prefixes is equality, a
    -- synchronization succeeds, and afterwards a route is in the table exactly if it was there and
    -- is not stale, or is the route of a desired prefix that no route on the TUN device had. A
    -- stale route is one on the TUN device whose prefix is neither desired nor managed by the
    -- system.
    pub sync_tun_routes_iff :
        (s : S)
        → ((sync_tun_routes nets routes handle (ok tun_ifindex) tun_addrs allowed s).0 ≡ ok tt)
          × ((x : Route)
              → Memᴰ x (
                  t.table
                    (sync_tun_routes nets routes handle (ok tun_ifindex) tun_addrs allowed s).1)
                ↔ IsSynced nets routes tun_ifindex
                    (desired_routes nets tun_addrs allowed)
                    (tun_v4_kernel_routes nets tun_addrs)
                    (t.table s)
                    x)
    unfolding sync_tun_routes
    sync_tun_routes_iff s = rw (t.list-table s) (refl, sync_listed-table s)

    -- On a table on which every operation succeeds, and where the route of each desired prefix
    -- reads back as one on the TUN device with this prefix, a second synchronization leaves the
    -- table as the first one left it.
    pub sync_tun_routes-sync_tun_routes :
        (s : S)
        → ((net : Net)
            → Memᴰ net (desired_routes nets tun_addrs allowed)
            → IsOnTun nets routes tun_ifindex (tun_route nets routes tun_ifindex net) net)
        → (x : Route)
        → Memᴰ x (
            t.table
              (sync_tun_routes nets routes handle
                (ok tun_ifindex)
                tun_addrs
                allowed
                (sync_tun_routes nets routes handle (ok tun_ifindex) tun_addrs allowed s).1).1)
          ↔ Memᴰ x
              (t.table (sync_tun_routes nets routes handle (ok tun_ifindex) tun_addrs allowed s).1)
    sync_tun_routes-sync_tun_routes s reads x =
        let s1 = (sync_tun_routes nets routes handle (ok tun_ifindex) tun_addrs allowed s).1 in
        let once = (sync_tun_routes_iff s).1 in
        let twice = (sync_tun_routes_iff s1).1 x in
        let never_stale : (net : Net) (y : Route)
            → Memᴰ net desired
            → IsOnTun nets routes tun_ifindex y net
            → ¬ IsStale nets routes tun_ifindex desired managed y =
          λ net y wanted on.
            not-IsStale nets same_iff routes tun_ifindex desired managed y net on.1
              (inl ((has_net_iff nets same_iff desired net).1 wanted)) in
        (
          λ m. elim (twice.0 m) [
            | inl k ↦ k.0
            | inr k ↦
                let missing : IsMissing nets routes tun_ifindex (t.table s) k.0 = λ f.
                  k.1.1.0
                    (f.0, ((once f.0).1 (inl (f.1.0, never_stale k.0 f.0 k.1.0 f.1.1)), f.1.1)) in
                absurd (
                  k.1.1.0 (
                    tun_route nets routes tun_ifindex k.0,
                    (
                      (once (tun_route nets routes tun_ifindex k.0)).1
                          (inr (k.0, (k.1.0, (missing, refl)))),
                      reads k.0 k.1.0,
                    ),
                  ))
          ],
          λ m. twice.1 (
              inl (
                m,
                elim ((once x).0 m) [
                  | inl k ↦ k.1
                  | inr k ↦ never_stale k.0 x k.1.0 (
                      subst (λ z. IsOnTun nets routes tun_ifindex z k.0) (sym k.1.1.1)
                        (reads k.0 k.1.0))
                ],
              )),
        )
