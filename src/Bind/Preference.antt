-- ===== src/Bind/Preference.antt =====
-- Which of two routes is preferred, and that the code's order of candidates says so.
use h3llo.Base.{
  ℕ, ◌==◌, ==_iff, ltb, if◌then◌else◌, ◌<◌, ◌≤◌, some, none, Option-cases, Option, true, false, ◌≡◌,
  ◌≢◌, ◌↔◌, ◌⊎◌, refl, sym, ◌∙◌, subst, Bool-cases, inl, inr, arith,
}
use h3llo.Bind.{
  Routes, Candidate, rt_table_main, metric_of, not_after_metric, not_after_main, not_after,
}

-- What a route without a metric costs is nothing.
abbrev pub cost : Option ℕ → ℕ
cost none = 0
cost (some metric) = metric

module _ {Route : Type 0} (routes : Routes Route) where
  -- The prefix of the first is longer; or they are as long, and it is in the main table (254) where
  -- the other is not; or both or none of them is, and it costs no more.
  abbrev pub IsPreferred : Route → Route → Type 0
  IsPreferred r x =
      (routes.prefix x < routes.prefix r)
      ⊎ ((routes.prefix x ≡ routes.prefix r)
          × (((routes.table r ≡ 254) × (routes.table x ≢ 254))
              ⊎ (((routes.table r ≡ 254) ↔ (routes.table x ≡ 254))
                  × (cost (routes.metric r) ≤ cost (routes.metric x)))))

  abbrev pub candidate : Route → ℕ → Candidate
  candidate r idx = record {
    prefix_len = routes.prefix r;
    is_main = routes.table r == rt_table_main;
    metric = routes.metric r;
    ifindex = idx;
  }

  metric_of-candidate : (r : Route) (idx : ℕ) → metric_of (candidate r idx) ≡ cost (routes.metric r)
  metric_of-candidate r idx = elim (Option-cases (routes.metric r)) [
    | inl e ↦ rw e refl
    | inr (n, e) ↦ rw e refl
  ]

  same_kind-IsPreferred :
      (r x : Route) (i j : ℕ)
      → ((routes.table r ≡ 254) ↔ (routes.table x ≡ 254))
      → routes.prefix x ≡ routes.prefix r
      → not_after_metric (candidate r i) (candidate x j) ≡ true
      → IsPreferred r x
  same_kind-IsPreferred r x i j kind same h =
      let a = metric_of-candidate r i in
      let b = metric_of-candidate x j in inr (same, inr (kind, ground arith))

  same_prefix-IsPreferred :
      (r x : Route) (i j : ℕ)
      → routes.prefix x ≡ routes.prefix r
      → not_after_main
          (routes.table r == rt_table_main)
          (routes.table x == rt_table_main)
          (candidate r i)
          (candidate x j)
        ≡ true
      → IsPreferred r x
  same_prefix-IsPreferred r x i j same h = elim (Bool-cases (routes.table r == rt_table_main)) [
    | inl a ↦
        let main = (==_iff (routes.table r) 254).0 a in
        elim (Bool-cases (routes.table x == rt_table_main)) [
          | inl b ↦
              let other = (==_iff (routes.table x) 254).0 b in
              same_kind-IsPreferred r x i j (λ _. other, λ _. main) same
                (subst (λ q. not_after_main true q (candidate r i) (candidate x j) ≡ true) b
                  (subst
                    (λ p.
                      not_after_main p (routes.table x == rt_table_main) (candidate r i)
                        (candidate x j)
                      ≡ true)
                    a h))
          | inr b ↦ inr (
            same,
            inl (
              main,
              λ e.
                  let clash : true ≡ false = sym ((==_iff (routes.table x) 254).1 e) ∙ b in
                  ground arith,
            ),
          )
        ]
    | inr a ↦
        let apart : routes.table r ≢ 254 = λ e.
          let clash : true ≡ false = sym ((==_iff (routes.table r) 254).1 e) ∙ a in ground arith in
        let h' =
          subst
            (λ p.
              not_after_main p (routes.table x == rt_table_main) (candidate r i) (candidate x j)
              ≡ true)
            a h in
        elim (Bool-cases (routes.table x == rt_table_main)) [
          | inl b ↦
              let clash : false ≡ true =
                subst (λ q. not_after_main false q (candidate r i) (candidate x j) ≡ true) b h' in
              ground arith
          | inr b ↦
              let other : routes.table x ≢ 254 = λ e.
                let clash : true ≡ false = sym ((==_iff (routes.table x) 254).1 e) ∙ b in
                ground arith in
              same_kind-IsPreferred r x i j (λ e. absurd (apart e), λ e. absurd (other e)) same
                (subst (λ q. not_after_main false q (candidate r i) (candidate x j) ≡ true) b h')
        ]
  ]

  pub candidate-IsPreferred :
      (r x : Route) (i j : ℕ) → not_after (candidate r i) (candidate x j) ≡ true → IsPreferred r x
  candidate-IsPreferred r x i j h = elim (Bool-cases (ltb (routes.prefix x) (routes.prefix r))) [
    | inl t ↦ inl (ground arith)
    | inr f ↦ elim (Bool-cases (ltb (routes.prefix r) (routes.prefix x))) [
      | inl t ↦
          let clash : false ≡ true =
            subst
              (λ c.
                (if c
                  then false
                  else not_after_main (routes.table r == rt_table_main)
                      (routes.table x == rt_table_main) (candidate r i) (candidate x j))
                ≡ true)
              t
              (subst
                (λ b.
                  (if b
                    then true
                    else if ltb (routes.prefix r) (routes.prefix x)
                    then false
                    else not_after_main (routes.table r == rt_table_main)
                        (routes.table x == rt_table_main) (candidate r i) (candidate x j))
                  ≡ true)
                f h) in
          ground arith
      | inr g ↦ same_prefix-IsPreferred r x i j (ground arith) (
          subst
            (λ c.
              (if c
                then false
                else not_after_main (routes.table r == rt_table_main)
                    (routes.table x == rt_table_main) (candidate r i) (candidate x j))
              ≡ true)
            g
            (subst
              (λ b.
                (if b
                  then true
                  else if ltb (routes.prefix r) (routes.prefix x)
                  then false
                  else not_after_main (routes.table r == rt_table_main)
                      (routes.table x == rt_table_main) (candidate r i) (candidate x j))
                ≡ true)
              f h))
    ]
  ]
