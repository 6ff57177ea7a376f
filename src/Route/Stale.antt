-- ===== src/Route/Stale.antt =====
-- What the loop over the routes of the system removes, and the prefixes that it finds.
use h3llo.Base.{
  ℕ, List, [], ◌∷◌, Option, none, some, Bool, true, false, ◌||◌, ◌≡◌, ◌≢◌, ◌↔◌, ◌⊎◌, refl, sym, ap,
  ◌∙◌, subst, any-mem, mem-any, Memᴰ, ok, Bool-cases, inl, inr, iff_trans, arith,
}
use mathlib.Core.List.Memᴰ.{head, tail}
use h3llo.Route.{
  RouteNets, Routes, RouteHandle, has_net, insert_net, is_ipv6_kernel_route, ipnet_from_route,
  is_index, visit_net, visit, remove_stale,
}

-- A table of routes on which every operation succeeds.
pub record RouteTable {Route S : Type 0} (handle : RouteHandle Route S) : Type 0 where
  pub table : S → List Route
  pub list-table : (s : S) → handle.list s ≡ ok (table s)
  pub mem-add :
      (s : S) (r x : Route) → Memᴰ x (table (handle.add s r).1) ↔ (Memᴰ x (table s) ⊎ (x ≡ r))
  pub mem-delete :
      (s : S) (r x : Route) → Memᴰ x (table (handle.delete s r).1) ↔ (Memᴰ x (table s) × (x ≢ r))

module _ {Net : Type 0} (nets : RouteNets Net) {Route : Type 0} (routes : Routes Route)
    (tun_ifindex : ℕ) where
  -- The route is on the TUN device, with this prefix.
  abbrev pub IsOnTun : Route → Net → Type 0
  IsOnTun r net =
      (is_index nets routes (routes.if_index r) tun_ifindex ≡ true)
      × (ipnet_from_route nets routes r ≡ some net)

  module _ (desired managed : List Net) where
    -- The route is on the TUN device, and its prefix is neither desired nor managed by the system.
    abbrev pub IsStale : Route → Type 0
    IsStale r =
        (net : Net) × (IsOnTun r net
          × ((has_net nets desired net ≡ false)
              × ((has_net nets managed net || is_ipv6_kernel_route nets net) ≡ false)))

    -- The prefixes that the loop finds.
    abbrev pub IsFound : Route → Net → Type 0
    IsFound r net = IsOnTun r net × (has_net nets desired net ≡ true)

module _ {Net : Type 0} (nets : RouteNets Net)
    (same_iff : (a b : Net) → (nets.same a b ≡ true) ↔ (a ≡ b)) where
  pub has_net_iff : (set : List Net) (net : Net) → (has_net nets set net ≡ true) ↔ Memᴰ net set
  has_net_iff set net = (
    λ h.
        let found = any-mem (λ other. nets.same other net) set h in
        subst (λ x. Memᴰ x set) ((same_iff found.0 net).0 found.1.1) found.1.0,
    λ m. mem-any (λ other. nets.same other net) set net m ((same_iff net net).1 refl),
  )

  pub mem-insert_net :
      (set : List Net) (m n : Net) → Memᴰ n (insert_net nets m set) ↔ (Memᴰ n set ⊎ (n ≡ m))
  mem-insert_net set m n = elim (Bool-cases (has_net nets set m)) [
    | inl t ↦
        let old = (has_net_iff set m).0 t in
        rw t (λ h. inl h, λ h. elim h [ inl a ↦ a | inr e ↦ subst (λ x. Memᴰ x set) (sym e) old ])
    | inr f ↦ rw f (
      λ h. elim h [ head same ↦ inr same | tail below ↦ inl below ],
      λ h. elim h [ inl a ↦ tail a | inr e ↦ head e ],
    )
  ]

  module _ {Route : Type 0} (routes : Routes Route) (tun_ifindex : ℕ) where
    module _ (desired managed : List Net) where
      pub not-IsStale :
          (r : Route) (net : Net)
          → ipnet_from_route nets routes r ≡ some net
          → (has_net nets desired net ≡ true)
            ⊎ ((has_net nets managed net || is_ipv6_kernel_route nets net) ≡ true)
          → ¬ (IsStale nets routes tun_ifindex desired managed) r
      not-IsStale r net known kept stale =
          let same : stale.0 ≡ net = cc in
          elim kept [
            | inl d ↦
                let both : true ≡ false =
                  sym d ∙ sym (ap (has_net nets desired) same) ∙ stale.1.1.0 in
                ground arith
            | inr m ↦
                let both : true ≡ false =
                  sym m
                  ∙ sym (ap (λ n. has_net nets managed n || is_ipv6_kernel_route nets n) same)
                  ∙ stale.1.1.1 in
                ground arith
          ]

      unwanted :
          (r : Route) (net n : Net)
          → has_net nets desired net ≡ false
          → ipnet_from_route nets routes r ≡ some net
          → ¬ (IsFound nets routes tun_ifindex desired managed) r n
      unwanted r net n hb known f =
          let same : n ≡ net = cc in
          let both : true ≡ false = sym f.1 ∙ ap (has_net nets desired) same ∙ hb in ground arith

      module _ {S : Type 0} (handle : RouteHandle Route S) (t : RouteTable handle) where
        kept_as_is :
            (r x : Route) (s : S)
            → ¬ (IsStale nets routes tun_ifindex desired managed) r
            → Memᴰ x (t.table s) ↔ (
                Memᴰ x (t.table s)
                × (¬ ((x ≡ r) × (IsStale nets routes tun_ifindex desired managed) x)))
        kept_as_is r x s n = (
          λ m. (m, λ h. n (subst (IsStale nets routes tun_ifindex desired managed) h.0 h.1)),
          λ h. h.0,
        )

        visit_net-table :
            (a b c : Bool) (r : Route) (net : Net) (ex : List Net) (s : S) (x : Route)
            → is_index nets routes (routes.if_index r) tun_ifindex ≡ a
            → has_net nets desired net ≡ b
            → (has_net nets managed net || is_ipv6_kernel_route nets net) ≡ c
            → ipnet_from_route nets routes r ≡ some net
            → Memᴰ x (
                t.table
                  (visit_net nets routes handle tun_ifindex desired managed a b c r net (ex, s)).1)
              ↔ (Memᴰ x (t.table s)
                  × (¬ ((x ≡ r) × (IsStale nets routes tun_ifindex desired managed) x)))
        visit_net-table true true c r net ex s x ha hb hc known =
            kept_as_is r x s (not-IsStale r net known (inl hb))
        visit_net-table true false true r net ex s x ha hb hc known =
            kept_as_is r x s (not-IsStale r net known (inr hc))
        visit_net-table true false false r net ex s x ha hb hc known =
            iff_trans (t.mem-delete s r x) (
              λ h. (h.0, λ k. h.1 k.0),
              λ h. (
                h.0,
                λ e. h.1 (
                  e,
                  subst (IsStale nets routes tun_ifindex desired managed) (sym e)
                      (net, ((ha, known), (hb, hc))),
                ),
              ),
            )
        visit_net-table false b c r net ex s x ha hb hc known =
            kept_as_is r x s
              (λ stale. let both : true ≡ false = sym stale.1.0.0 ∙ ha in ground arith)

        visit-table :
            (r : Route) (o : Option Net) (ex : List Net) (s : S) (x : Route)
            → ipnet_from_route nets routes r ≡ o
            → Memᴰ x (t.table (visit nets routes handle tun_ifindex desired managed r o (ex, s)).1)
              ↔ (Memᴰ x (t.table s)
                  × (¬ ((x ≡ r) × (IsStale nets routes tun_ifindex desired managed) x)))
        visit-table r none ex s x known =
            kept_as_is r x s
              (λ stale. let both : none ≡ some stale.0 = sym known ∙ stale.1.0.1 in cc)
        visit-table r (some net) ex s x known =
            visit_net-table _ _ _ r net ex s x refl refl refl known

        pub remove_stale-table :
            (rs : List Route) (ex : List Net) (s : S) (x : Route)
            → Memᴰ x
                (t.table (remove_stale nets routes handle tun_ifindex desired managed rs (ex, s)).1)
              ↔ (Memᴰ x (t.table s)
                  × (¬ (Memᴰ x rs × (IsStale nets routes tun_ifindex desired managed) x)))
        unfolding remove_stale
        remove_stale-table [] ex s x = (λ m. (m, λ h. elim h.0 [ ]), λ h. h.0)
        remove_stale-table (r ∷ rs) ex s x =
            let seen =
              visit nets routes handle tun_ifindex desired managed r
                (ipnet_from_route nets routes r) (ex, s) in
            let first = visit-table r (ipnet_from_route nets routes r) ex s x refl in
            iff_trans (remove_stale-table rs seen.0 seen.1 x) (
              λ h.
                  let before = first.0 h.0 in
                  (
                    before.0,
                    λ k. elim k.0 [
                      | head same ↦ before.1 (same, k.1)
                      | tail below ↦ h.1 (below, k.1)
                    ],
                  ),
              λ h. (first.1 (h.0, λ k. h.1 (head k.0, k.1)), λ k. h.1 (tail k.0, k.1)),
            )

        visit_net-IsFound :
            (a b c : Bool) (r : Route) (net n : Net) (ex : List Net) (s : S)
            → is_index nets routes (routes.if_index r) tun_ifindex ≡ a
            → has_net nets desired net ≡ b
            → ipnet_from_route nets routes r ≡ some net
            → Memᴰ n
                (visit_net nets routes handle tun_ifindex desired managed a b c r net (ex, s)).0
              ↔ (Memᴰ n ex ⊎ (IsFound nets routes tun_ifindex desired managed) r n)
        visit_net-IsFound true true c r net n ex s ha hb known =
            iff_trans (mem-insert_net ex net n) (
              λ h. elim h [
                | inl m ↦ inl m
                | inr e ↦ inr (
                    subst ((IsFound nets routes tun_ifindex desired managed) r) (sym e)
                      ((ha, known), hb))
              ],
              λ h. elim h [ inl m ↦ inl m | inr f ↦ let same : n ≡ net = cc in inr same ],
            )
        visit_net-IsFound true false true r net n ex s ha hb known =
            (λ m. inl m, λ h. elim h [ inl m ↦ m | inr f ↦ absurd (unwanted r net n hb known f) ])
        visit_net-IsFound true false false r net n ex s ha hb known =
            (λ m. inl m, λ h. elim h [ inl m ↦ m | inr f ↦ absurd (unwanted r net n hb known f) ])
        visit_net-IsFound false b c r net n ex s ha hb known = (
          λ m. inl m,
          λ h. elim h [
            | inl m ↦ m
            | inr f ↦ let both : true ≡ false = sym f.0.0 ∙ ha in ground arith
          ],
        )

        visit-IsFound :
            (r : Route) (o : Option Net) (n : Net) (ex : List Net) (s : S)
            → ipnet_from_route nets routes r ≡ o
            → Memᴰ n (visit nets routes handle tun_ifindex desired managed r o (ex, s)).0
              ↔ (Memᴰ n ex ⊎ (IsFound nets routes tun_ifindex desired managed) r n)
        visit-IsFound r none n ex s known = (
          λ m. inl m,
          λ h. elim h [ inl m ↦ m | inr f ↦ let both : none ≡ some n = sym known ∙ f.0.1 in cc ],
        )
        visit-IsFound r (some net) n ex s known =
            visit_net-IsFound _ _ _ r net n ex s refl refl known

        -- The prefixes found are those found before and those of the routes that are visited.
        pub remove_stale-IsFound :
            (rs : List Route) (ex : List Net) (s : S) (n : Net)
            → Memᴰ n (remove_stale nets routes handle tun_ifindex desired managed rs (ex, s)).0 ↔ (
                Memᴰ n ex
                ⊎ ((r : Route) × (Memᴰ r rs
                      × (IsFound nets routes tun_ifindex desired managed) r n)))
        unfolding remove_stale
        remove_stale-IsFound [] ex s n =
            (λ m. inl m, λ h. elim h [ inl m ↦ m | inr f ↦ elim f.1.0 [ ] ])
        remove_stale-IsFound (r ∷ rs) ex s n =
            let seen =
              visit nets routes handle tun_ifindex desired managed r
                (ipnet_from_route nets routes r) (ex, s) in
            let first = visit-IsFound r (ipnet_from_route nets routes r) n ex s refl in
            iff_trans (remove_stale-IsFound rs seen.0 seen.1 n) (
              λ h. elim h [
                | inl m ↦ elim (first.0 m) [ inl old ↦ inl old | inr f ↦ inr (r, (head refl, f)) ]
                | inr f ↦ inr (f.0, (tail f.1.0, f.1.1))
              ],
              λ h. elim h [
                | inl m ↦ inl (first.1 (inl m))
                | inr (r', (head same, f)) ↦ inl (
                    first.1 (
                      inr (
                        subst (λ z. (IsFound nets routes tun_ifindex desired managed) z n) same f)))
                | inr (r', (tail below, f)) ↦ inr (r', (below, f))
              ],
            )
