-- ===== src/Bind/Ranked.antt =====
-- The order in which the interfaces of matching routes are tried.
use h3llo.Base.{
  ℕ, ◌==◌, ==_iff, some, none, Bool, Option-cases, List, [], ◌∷◌, Option, true, false, ◌≡◌, ◌≢◌,
  ◌↔◌, refl, sym, ap, ◌∙◌, subst, Memᴰ, Bool-cases, inl, inr, arith, iff_trans, iff_both,
}
use mathlib.Core.List.Memᴰ.{head, tail}
use mathlib.Core.Option.{some-injective}
use h3llo.Net.{IpAddr}
use h3llo.Config.Valid.{IsDistinct}
use h3llo.Bind.{
  Routes, Candidate, not_after, route_match, match_contained, match_index, is_tun_index, matches_of,
  matching_route_indexes,
}
use h3llo.Bind.Preference.{IsPreferred, candidate, candidate-IsPreferred}
use h3llo.Bind.Picked.{HasIndex, IsRanked, matching_route_indexes-IsPicked}

module _ {Route : Type 0} (routes : Routes Route) where
  -- The route leads to the target through the interface of this index.
  abbrev pub LeadsTo : IpAddr → Route → ℕ → Type 0
  LeadsTo target r idx = (routes.if_index r ≡ some idx) × (routes.contains r target ≡ some true)

  -- Each index comes from a route that is preferred to every route of a later index.
  abbrev pub IsInOrder : List Route → IpAddr → List ℕ → Type 0
  IsInOrder listed target [] = Unit
  IsInOrder listed target (idx ∷ rest) =
      ((r : Route) × (Memᴰ r listed
          × (LeadsTo target r idx
              × ((x : Route) (j : ℕ)
                  → Memᴰ x listed
                  → LeadsTo target x j
                  → Memᴰ j rest
                  → IsPreferred routes r x))))
      × IsInOrder listed target rest

  -- Some route leads to the target through the interface.
  abbrev pub IsWayTo : List Route → IpAddr → ℕ → Type 0
  IsWayTo listed target idx = (r : Route) × (Memᴰ r listed × LeadsTo target r idx)

  contained_iff :
      (r : Route) (idx : ℕ) (o : Option Bool) (m : Candidate)
      → (match_contained routes r idx o ≡ some m) ↔ ((o ≡ some true) × (candidate routes r idx ≡ m))
  contained_iff r idx none m = (λ e. cc, λ h. cc)
  contained_iff r idx (some false) m =
      (λ e. cc, λ h. let clash : false ≡ true = some-injective _ _ h.0 in ground arith)
  contained_iff r idx (some true) m = (λ e. (refl, some-injective _ _ e), λ h. ap (λ c. some c) h.1)

  index_iff :
      (r : Route) (target : IpAddr) (o : Option ℕ) (m : Candidate)
      → (match_index routes r target o ≡ some m) ↔ (
          (o ≡ some m.ifindex)
          × ((routes.contains r target ≡ some true) × (candidate routes r m.ifindex ≡ m)))
  index_iff r target none m = (λ e. cc, λ h. cc)
  index_iff r target (some idx) m =
      let inner = contained_iff r idx (routes.contains r target) m in
      (
        λ e.
            let k = inner.0 e in
            let same : idx ≡ m.ifindex = ap (λ (c : Candidate). c.ifindex) k.1 in
            (ap (λ i. some i) same, (k.0, subst (λ i. candidate routes r i ≡ m) same k.1)),
        λ h.
            let same : m.ifindex ≡ idx = sym (some-injective idx m.ifindex h.0) in
            inner.1 (h.1.0, subst (λ i. candidate routes r i ≡ m) same h.1.1),
      )

  -- The candidates are those of the routes that lead to the target.
  candidates_iff :
      (listed : List Route) (target : IpAddr) (m : Candidate)
      → Memᴰ m (matches_of routes listed target) ↔ (
          (r : Route) × (Memᴰ r listed
            × (LeadsTo target r m.ifindex × (candidate routes r m.ifindex ≡ m))))
  unfolding matches_of route_match
  candidates_iff [] target m = (λ k. elim k [ ], λ h. elim h.1.0 [ ])
  candidates_iff (r ∷ rest) target m =
      let later = candidates_iff rest target m in
      elim (Option-cases (route_match routes r target)) [
        | inl none_here ↦
            let gone : (x : Route)
                → x ≡ r
                → LeadsTo target x m.ifindex
                → candidate routes x m.ifindex ≡ m
                → ⊥ =
              λ x e at known.
                let found : match_index routes r target (routes.if_index r) ≡ some m =
                  (index_iff r target (routes.if_index r) m).1 (
                    subst
                      (λ z.
                        (routes.if_index z ≡ some m.ifindex)
                        × ((routes.contains z target ≡ some true)
                            × (candidate routes z m.ifindex ≡ m)))
                      e (at.0, (at.1, known))) in
                let clash : none ≡ some m = sym none_here ∙ found in cc in
            rw none_here (
              λ k. let h = later.0 k in (h.0, (tail h.1.0, h.1.1)),
              λ h. elim h.1.0 [
                | head e ↦ absurd (gone h.0 e h.1.1.0 h.1.1.1)
                | tail below ↦ later.1 (h.0, (below, h.1.1))
              ],
            )
        | inr (c, here) ↦ rw here (
          λ k. elim k [
            | head e ↦
                let at =
                  (index_iff r target (routes.if_index r) m).0 (here ∙ ap (λ z. some z) (sym e)) in
                (r, (head refl, ((at.0, at.1.0), at.1.1)))
            | tail below ↦ let h = later.0 below in (h.0, (tail h.1.0, h.1.1))
          ],
          λ h. elim h.1.0 [
            | head e ↦
                let found : match_index routes r target (routes.if_index r) ≡ some m =
                  (index_iff r target (routes.if_index r) m).1 (
                    subst
                      (λ z.
                        (routes.if_index z ≡ some m.ifindex)
                        × ((routes.contains z target ≡ some true)
                            × (candidate routes z m.ifindex ≡ m)))
                      e (h.1.1.0.0, (h.1.1.0.1, h.1.1.1))) in
                head (some-injective m c (sym found ∙ here))
            | tail below ↦ tail (later.1 (h.0, (below, h.1.1)))
          ],
        )
      ]

  candidate_listed :
      (listed : List Route) (target : IpAddr) (r : Route) (idx : ℕ)
      → Memᴰ r listed
      → LeadsTo target r idx
      → Memᴰ (candidate routes r idx) (matches_of routes listed target)
  candidate_listed listed target r idx m at =
      (candidates_iff listed target (candidate routes r idx)).1 (r, (m, (at, refl)))

  IsRanked-IsInOrder :
      (listed : List Route) (target : IpAddr) (found : List ℕ)
      → IsRanked (matches_of routes listed target) found
      → IsInOrder listed target found
  IsRanked-IsInOrder listed target [] h = tt
  IsRanked-IsInOrder listed target (idx ∷ rest) ((best, (m, (same, first))), h) =
      let (r, (listed_r, (at, known))) = (candidates_iff listed target best).0 m in
      (
        (
          r,
          (
            listed_r,
            (
              subst (LeadsTo target r) same at,
              λ x j k way l. candidate-IsPreferred routes r x best.ifindex j (
                  subst (λ c. not_after c (candidate routes x j) ≡ true) (sym known)
                    (first (candidate routes x j) (candidate_listed listed target x j k way) l)),
            ),
          ),
        ),
        IsRanked-IsInOrder listed target rest h,
      )

  way_iff :
      (listed : List Route) (target : IpAddr) (idx : ℕ)
      → HasIndex (matches_of routes listed target) idx ↔ IsWayTo listed target idx
  way_iff listed target idx = (
    λ h.
        let (r, (m, (at, known))) = (candidates_iff listed target h.0).0 h.1.0 in
        (r, (m, subst (LeadsTo target r) h.1.1 at)),
    λ h. (candidate routes h.0 idx, (candidate_listed listed target h.0 idx h.1.0 h.1.1, refl)),
  )

  other_iff :
      (tun_index : Option ℕ) (idx : ℕ)
      → (is_tun_index tun_index idx ≡ false) ↔ (tun_index ≢ some idx)
  other_iff none idx = (λ h e. cc, λ h. refl)
  other_iff (some i) idx = (
    λ h e.
        let clash : true ≡ false = sym ((==_iff i idx).1 (some-injective i idx e)) ∙ h in
        ground arith,
    λ n. elim (Bool-cases (i == idx)) [
      | inl t ↦ absurd (n (ap (λ z. some z) ((==_iff i idx).0 t)))
      | inr f ↦ f
    ],
  )

  -- The indexes that are tried are exactly those of the interfaces through which a listed route leads
  -- to the target, except that of the TUN device, each once; and each belongs to a route that is
  -- preferred to every route of a later index: its prefix is longer, or as long and in the main
  -- table where the other is not, or in tables of one kind at no higher cost.
  pub matching_route_indexes-IsInOrder :
      (listed : List Route) (target : IpAddr) (tun_index : Option ℕ)
      → ((idx : ℕ)
          → Memᴰ idx (matching_route_indexes routes listed target tun_index)
            ↔ (IsWayTo listed target idx × (tun_index ≢ some idx)))
        × (IsDistinct (matching_route_indexes routes listed target tun_index)
            × IsInOrder listed target (matching_route_indexes routes listed target tun_index))
  matching_route_indexes-IsInOrder listed target tun_index =
      let picked = matching_route_indexes-IsPicked routes listed target tun_index in
      (
        λ idx.
            iff_trans (picked.0 idx)
              (iff_both (way_iff listed target idx) (other_iff tun_index idx)),
        (
          picked.1.0,
          IsRanked-IsInOrder listed target (matching_route_indexes routes listed target tun_index)
              picked.1.1,
        ),
      )
