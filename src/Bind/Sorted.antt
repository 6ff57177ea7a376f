-- ===== src/Bind/Sorted.antt =====
-- The sort of the matching routes.
use h3llo.Base.{
  List, [], ◌∷◌, true, false, ◌≡◌, ◌↔◌, ◌⊎◌, ap, ◌∙◌, Memᴰ, Bool-cases, inl, inr, arith, iff_trans,
}
use mathlib.Core.List.Memᴰ.{head, tail}
use h3llo.Bind.{Candidate, not_after, insert_match, sort_matches}

-- The order is total and transitive.
not_after_total : (a b : Candidate) → not_after a b ≡ false → not_after b a ≡ true
not_after_total a b h = ground arith

not_after_trans :
    (a b c : Candidate) → not_after a b ≡ true → not_after b c ≡ true → not_after a c ≡ true
not_after_trans a b c h k = ground arith

mem-insert_match :
    (m x : Candidate) (xs : List Candidate) → Memᴰ x (insert_match m xs) ↔ ((x ≡ m) ⊎ Memᴰ x xs)
unfolding insert_match
mem-insert_match m x [] = (
  λ h. elim h [ head same ↦ inl same | tail below ↦ inr below ],
  λ h. elim h [ inl e ↦ head e | inr k ↦ tail k ],
)
mem-insert_match m x (other ∷ rest) = elim (Bool-cases (not_after m other)) [
  | inl t ↦ rw t (
    λ h. elim h [ head same ↦ inl same | tail below ↦ inr below ],
    λ h. elim h [ inl e ↦ head e | inr k ↦ tail k ],
  )
  | inr f ↦
      let ih = mem-insert_match m x rest in
      rw f (
        λ h. elim h [
          | head same ↦ inr (head same)
          | tail below ↦ elim (ih.0 below) [ inl e ↦ inl e | inr k ↦ inr (tail k) ]
        ],
        λ h. elim h [
          | inl e ↦ tail (ih.1 (inl e))
          | inr k ↦ elim k [ head same ↦ head same | tail below ↦ tail (ih.1 (inr below)) ]
        ],
      )
]

pub mem-sort_matches : (x : Candidate) (xs : List Candidate) → Memᴰ x (sort_matches xs) ↔ Memᴰ x xs
unfolding sort_matches
mem-sort_matches x [] = (λ h. h, λ h. h)
mem-sort_matches x (m ∷ xs) =
    let ih = mem-sort_matches x xs in
    iff_trans (mem-insert_match m x (sort_matches xs)) (
      λ h. elim h [ inl e ↦ head e | inr k ↦ tail (ih.0 k) ],
      λ h. elim h [ head same ↦ inl same | tail below ↦ inr (ih.1 below) ],
    )

-- No element is after one that follows.
abbrev pub IsSorted : List Candidate → Type 0
IsSorted [] = Unit
IsSorted (m ∷ rest) = ((x : Candidate) → Memᴰ x rest → not_after m x ≡ true) × IsSorted rest

insert_match-IsSorted :
    (m : Candidate) (xs : List Candidate) → IsSorted xs → IsSorted (insert_match m xs)
unfolding insert_match
insert_match-IsSorted m [] h = (λ x k. elim k [ ], tt)
insert_match-IsSorted m (other ∷ rest) h = elim (Bool-cases (not_after m other)) [
  | inl t ↦ rw t (
    λ x k. elim k [
      | head same ↦ ap (not_after m) same ∙ t
      | tail below ↦ not_after_trans m other x t (h.0 x below)
    ],
    h,
  )
  | inr f ↦ rw f (
    λ x k. elim ((mem-insert_match m x rest).0 k) [
      | inl e ↦ ap (not_after other) e ∙ not_after_total m other f
      | inr below ↦ h.0 x below
    ],
    insert_match-IsSorted m rest h.1,
  )
]

pub sort_matches-IsSorted : (xs : List Candidate) → IsSorted (sort_matches xs)
unfolding sort_matches
sort_matches-IsSorted [] = tt
sort_matches-IsSorted (m ∷ xs) =
    insert_match-IsSorted m (sort_matches xs) (sort_matches-IsSorted xs)
