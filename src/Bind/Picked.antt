-- ===== src/Bind/Picked.antt =====
-- The indexes that are picked from the sorted candidates.
use h3llo.Base.{
  ℕ, ◌==◌, ==_iff, List, [], ◌∷◌, Option, true, false, ◌≡◌, ◌≢◌, ◌↔◌, ◌⊎◌, refl, sym, ap, ◌∙◌,
  subst, any, any-mem, mem-any, Memᴰ, Bool-cases, inl, inr, arith,
}
use mathlib.Core.List.Memᴰ.{head, tail}
use h3llo.Net.{IpAddr}
use h3llo.Config.Valid.{IsDistinct}
use h3llo.Bind.{
  Routes, Candidate, not_after, sort_matches, is_tun_index, pick_indexes, matches_of,
  matching_route_indexes,
}
use h3llo.Bind.Sorted.{mem-sort_matches, IsSorted, sort_matches-IsSorted}

-- Each index comes from a route that is not after any route of a later index.
abbrev pub IsRanked : List Candidate → List ℕ → Type 0
IsRanked ms [] = Unit
IsRanked ms (idx ∷ rest) =
    ((m : Candidate) × (Memᴰ m ms
        × ((m.ifindex ≡ idx)
            × ((x : Candidate) → Memᴰ x ms → Memᴰ x.ifindex rest → not_after m x ≡ true))))
    × IsRanked ms rest

-- Some route leads through the interface.
abbrev pub HasIndex : List Candidate → ℕ → Type 0
HasIndex ms idx = (m : Candidate) × (Memᴰ m ms × (m.ifindex ≡ idx))

IsRanked-cons :
    (m : Candidate) (ms : List Candidate) (found : List ℕ)
    → ¬ Memᴰ m.ifindex found
    → IsRanked ms found
    → IsRanked (m ∷ ms) found
IsRanked-cons m ms [] n h = tt
IsRanked-cons m ms (idx ∷ rest) n ((best, (at, (same, first))), h) = (
  (
    best,
    (
      tail at,
      (
        same,
        λ x k l. elim k [
          | head e ↦
              absurd (n (tail (subst (λ y. Memᴰ y rest) (ap (λ (z : Candidate). z.ifindex) e) l)))
          | tail below ↦ first x below l
        ],
      ),
    ),
  ),
  IsRanked-cons m ms rest (λ k. n (tail k)) h,
)

seen_iff : (seen : List ℕ) (idx : ℕ) → (any (λ other. other == idx) seen ≡ true) ↔ Memᴰ idx seen
seen_iff seen idx = (
  λ h.
      let found = any-mem (λ other. other == idx) seen h in
      subst (λ x. Memᴰ x seen) ((==_iff found.0 idx).0 found.1.1) found.1.0,
  λ m. mem-any (λ other. other == idx) seen idx m ((==_iff idx idx).1 refl),
)

module _ (tun_index : Option ℕ) where
  -- What is asked of the indexes that are picked.
  abbrev IsPicked : List Candidate → List ℕ → List ℕ → Type 0
  IsPicked ms seen found =
      ((idx : ℕ)
        → Memᴰ idx found
          ↔ (HasIndex ms idx × ((is_tun_index tun_index idx ≡ false) × (¬ Memᴰ idx seen))))
      × (IsDistinct found × IsRanked ms found)

  skipped-IsPicked :
      (m : Candidate) (ms : List Candidate) (seen found : List ℕ)
      → (is_tun_index tun_index m.ifindex ≡ true) ⊎ Memᴰ m.ifindex seen
      → IsPicked ms seen found
      → IsPicked (m ∷ ms) seen found
  skipped-IsPicked m ms seen found why h =
      let unpicked : (is_tun_index tun_index m.ifindex ≡ false)
          → (¬ Memᴰ m.ifindex seen)
          → Memᴰ m.ifindex found =
        λ a n. elim why [
          | inl t ↦ let clash : true ≡ false = sym t ∙ a in ground arith
          | inr k ↦ absurd (n k)
        ] in
      (
        λ idx. (
          λ k. let r = (h.0 idx).0 k in ((r.0.0, (tail r.0.1.0, r.0.1.1)), r.1),
          λ r. elim r.0.1.0 [
            | head e ↦
                let same = sym (ap (λ (z : Candidate). z.ifindex) e) ∙ r.0.1.1 in
                subst (λ z. Memᴰ z found) same
                  (unpicked (ap (is_tun_index tun_index) same ∙ r.1.0)
                    (λ k. r.1.1 (subst (λ z. Memᴰ z seen) same k)))
            | tail below ↦ (h.0 idx).1 ((r.0.0, (below, r.0.1.1)), r.1)
          ],
        ),
        (
          h.1.0,
          IsRanked-cons m ms found
              (λ k.
                let r = (h.0 m.ifindex).0 k in
                elim why [
                  | inl t ↦ let clash : true ≡ false = sym t ∙ r.1.0 in ground arith
                  | inr old ↦ r.1.1 old
                ])
              h.1.1,
        ),
      )

  IsPicked-cons :
      (m : Candidate) (ms : List Candidate) (seen found : List ℕ)
      → ((x : Candidate) → Memᴰ x ms → not_after m x ≡ true)
      → is_tun_index tun_index m.ifindex ≡ false
      → ¬ Memᴰ m.ifindex seen
      → IsPicked ms (m.ifindex ∷ seen) found
      → IsPicked (m ∷ ms) seen (m.ifindex ∷ found)
  IsPicked-cons m ms seen found first other new h =
      let apart : ¬ Memᴰ m.ifindex found = λ k. ((h.0 m.ifindex).0 k).1.1 (head refl) in
      (
        λ idx. (
          λ k. elim k [
            | head e ↦ (
              (m, (head refl, sym e)),
              (ap (is_tun_index tun_index) e ∙ other, λ l. new (subst (λ z. Memᴰ z seen) e l)),
            )
            | tail below ↦
                let r = (h.0 idx).0 below in
                ((r.0.0, (tail r.0.1.0, r.0.1.1)), (r.1.0, λ l. r.1.1 (tail l)))
          ],
          λ r. elim (Bool-cases (idx == m.ifindex)) [
            | inl t ↦ head ((==_iff idx m.ifindex).0 t)
            | inr f ↦
                let differs : idx ≢ m.ifindex = λ e.
                  let clash : true ≡ false = sym ((==_iff idx m.ifindex).1 e) ∙ f in ground arith in
                elim r.0.1.0 [
                  | head e ↦ absurd (differs (sym r.0.1.1 ∙ ap (λ (z : Candidate). z.ifindex) e))
                  | tail below ↦ tail (
                      (h.0 idx).1 (
                        (r.0.0, (below, r.0.1.1)),
                        (r.1.0, λ l. elim l [ head e ↦ differs e | tail old ↦ r.1.1 old ]),
                      ))
                ]
          ],
        ),
        (
          (apart, h.1.0),
          (
            (
              m,
              (
                head refl,
                (
                  refl,
                  λ x k l. elim k [
                    | head e ↦
                        absurd (
                          apart (subst (λ z. Memᴰ z found) (ap (λ (z : Candidate). z.ifindex) e) l))
                    | tail below ↦ first x below
                  ],
                ),
              ),
            ),
            IsRanked-cons m ms found apart h.1.1,
          ),
        ),
      )

  pick_indexes-IsPicked :
      (ms : List Candidate) (seen : List ℕ)
      → IsSorted ms
      → IsPicked ms seen (pick_indexes tun_index ms seen)
  unfolding pick_indexes
  pick_indexes-IsPicked [] seen h = (λ idx. (λ k. elim k [ ], λ r. elim r.0.1.0 [ ]), (tt, tt))
  pick_indexes-IsPicked (m ∷ ms) seen h = elim (Bool-cases (is_tun_index tun_index m.ifindex)) [
    | inl t ↦ rw t (
        skipped-IsPicked m ms seen (pick_indexes tun_index ms seen) (inl t)
          (pick_indexes-IsPicked ms seen h.1))
    | inr f ↦ elim (Bool-cases (any (λ other. other == m.ifindex) seen)) [
      | inl t ↦
          rw (f, t)
            (skipped-IsPicked m ms seen (pick_indexes tun_index ms seen)
              (inr ((seen_iff seen m.ifindex).0 t)) (pick_indexes-IsPicked ms seen h.1))
      | inr n ↦
          let new : ¬ Memᴰ m.ifindex seen = λ k.
            let clash : true ≡ false = sym ((seen_iff seen m.ifindex).1 k) ∙ n in ground arith in
          rw (f, n)
            (IsPicked-cons m ms seen (pick_indexes tun_index ms (m.ifindex ∷ seen)) h.0 f new
              (pick_indexes-IsPicked ms (m.ifindex ∷ seen) h.1))
    ]
  ]

IsRanked-map :
    (ms ms' : List Candidate) (found : List ℕ)
    → ((x : Candidate) → Memᴰ x ms → Memᴰ x ms')
    → ((x : Candidate) → Memᴰ x ms' → Memᴰ x ms)
    → IsRanked ms found
    → IsRanked ms' found
IsRanked-map ms ms' [] f g h = tt
IsRanked-map ms ms' (idx ∷ rest) f g ((best, (at, (same, first))), h) =
    ((best, (f best at, (same, λ x k l. first x (g x k) l))), IsRanked-map ms ms' rest f g h)

pub matching_route_indexes-IsPicked :
    {Route : Type 0} (routes : Routes Route) (listed : List Route) (target : IpAddr)
    (tun_index : Option ℕ)
    → ((idx : ℕ)
        → Memᴰ idx (matching_route_indexes routes listed target tun_index)
          ↔ (HasIndex (matches_of routes listed target) idx × (is_tun_index tun_index idx ≡ false)))
      × (IsDistinct (matching_route_indexes routes listed target tun_index)
          × IsRanked
              (matches_of routes listed target)
              (matching_route_indexes routes listed target tun_index))
unfolding matching_route_indexes
matching_route_indexes-IsPicked routes listed target tun_index =
    let ms = matches_of routes listed target in
    let picked = pick_indexes-IsPicked tun_index (sort_matches ms) [] (sort_matches-IsSorted ms) in
    (
      λ idx. (
        λ k.
            let r = (picked.0 idx).0 k in
            ((r.0.0, ((mem-sort_matches r.0.0 ms).0 r.0.1.0, r.0.1.1)), r.1.0),
        λ r.
            (picked.0 idx).1
              ((r.0.0, ((mem-sort_matches r.0.0 ms).1 r.0.1.0, r.0.1.1)), (r.1, λ k. elim k [ ])),
      ),
      (
        picked.1.0,
        IsRanked-map (sort_matches ms) ms (pick_indexes tun_index (sort_matches ms) [])
            (λ x. (mem-sort_matches x ms).0) (λ x. (mem-sort_matches x ms).1) picked.1.1,
      ),
    )
