-- ===== src/Net/Model.antt =====
-- A concrete list of prefixes that meets the interface of the trie: the interface can be met, and
-- the examples run on it.
use h3llo.Base.{
  ℕ, ◌-◌, ◌*◌, ◌/◌, ◌^◌, ◌≤◌, ◌≡◌, ◌↔◌, subst, refl, ap, List, [], ◌∷◌, Option, none, some, Bool,
  true, false, if◌then◌else◌, ◌&&◌, ◌==◌, leb, ltb, Bool-cases, Option-cases, inl, inr, arith,
}
use h3llo.Net.{IpAddr, v4, v6, IpNets, IpnetTrie}

-- The list as a trie, over any prefixes whose sameness is equality.
module _ {K E : Type 0} (same contains : K → K → Bool) (len : K → ℕ)
    (same-eq : (a b : K) → same a b ≡ true → a ≡ b) where
  abbrev pub exact_match : List (K × E) → K → Option E
  exact_match [] p = none
  exact_match ((q, e) ∷ t) p = if same q p then some e else exact_match t p

  abbrev pub better : K → E → Option (K × E) → Option (K × E)
  better q e none = some (q, e)
  better q e (some (p, f)) = if ltb (len q) (len p) then some (p, f) else some (q, e)

  abbrev pub longest_match : List (K × E) → K → Option (K × E)
  longest_match [] h = none
  longest_match ((q, e) ∷ t) h =
      if contains q h then better q e (longest_match t h) else longest_match t h

  pub exact_match-same :
      (t : List (K × E)) (p q : K) → same p q ≡ true → exact_match t p ≡ exact_match t q
  exact_match-same t p q h = ap (exact_match t) (same-eq p q h)

  module _ (same_refl : (a : K) → same a a ≡ true) where
    pub longest_match-some :
        (t : List (K × E)) (h p : K) (e : E)
        → longest_match t h ≡ some (p, e)
        → (exact_match t p ≡ some e) × (contains p h ≡ true)
    longest_match-some [] h p e found = cc
    longest_match-some ((q, f) ∷ t) h p e found = elim (Bool-cases (contains q h)) [
      | inl here ↦ elim (Option-cases (longest_match t h)) [
        | inl alone ↦ ground (arith, same_refl q)
        | inr ((p', e'), rest) ↦
            ground (arith, same_refl q, same-eq q p, longest_match-some t h p' e' rest)
      ]
      | inr missed ↦ ground (arith, same-eq q p, longest_match-some t h p e)
    ]

    pub longest_match-none :
        (t : List (K × E)) (h q : K) (f : E)
        → longest_match t h ≡ none
        → exact_match t q ≡ some f
        → contains q h ≡ false
    longest_match-none [] h q f missed found = cc
    longest_match-none ((p, e) ∷ t) h q f missed found = elim (Option-cases (longest_match t h)) [
      | inl alone ↦ ground (arith, same-eq p q, longest_match-none t h q f)
      | inr ((p', e'), rest) ↦ ground arith
    ]

    pub longest_match-longest :
        (t : List (K × E)) (h p q : K) (e f : E)
        → longest_match t h ≡ some (p, e)
        → exact_match t q ≡ some f
        → contains q h ≡ true
        → len q ≤ len p
    longest_match-longest [] h p q e f found entry inside = cc
    longest_match-longest ((r, g) ∷ t) h p q e f found entry inside =
        elim (Option-cases (longest_match t h)) [
          | inl alone ↦ ground (arith, same-eq r q, longest_match-none t h q f alone)
          | inr ((p', e'), rest) ↦
              ground (arith, same-eq r q, longest_match-longest t h p' q e' f rest)
        ]

-- The leading `len` bits of an address, as a number.
pub record Prefix : Type 0 where
  pub is_v4 : Bool
  pub bits : ℕ
  pub len : ℕ

abbrev same_family : Bool → Bool → Bool
same_family true b = b
same_family false true = false
same_family false false = true

abbrev pub same_prefix : Prefix → Prefix → Bool
same_prefix a b = same_family a.is_v4 b.is_v4 && (a.bits == b.bits && a.len == b.len)

pub same_prefix-eq : (a b : Prefix) → same_prefix a b ≡ true → a ≡ b
same_prefix-eq a b h = ground arith

pub same_prefix_refl : (a : Prefix) → same_prefix a a ≡ true
same_prefix_refl a = ground arith

pub same_prefix_iff : (a b : Prefix) → (same_prefix a b ≡ true) ↔ (a ≡ b)
same_prefix_iff a b =
    (same_prefix-eq a b, λ e. subst (λ c. same_prefix a c ≡ true) e (same_prefix_refl a))

abbrev contains : Prefix → Prefix → Bool
contains q p =
    same_family q.is_v4 p.is_v4 && (leb q.len p.len && p.bits / 2 ^ (p.len - q.len) == q.bits)

abbrev addr : Prefix → IpAddr
addr p = if p.is_v4 then v4 (p.bits * 2 ^ (32 - p.len)) else v6 (p.bits * 2 ^ (128 - p.len))

abbrev host : IpAddr → Prefix
host (v4 a) = record { is_v4 = true; bits = a; len = 32 }
host (v6 a) = record { is_v4 = false; bits = a; len = 128 }

pub same_prefix_sym : (a b : Prefix) → same_prefix a b ≡ true → same_prefix b a ≡ true
same_prefix_sym a b h = ground arith

pub same_prefix_trans :
    (a b c : Prefix) → same_prefix a b ≡ true → same_prefix b c ≡ true → same_prefix a c ≡ true
same_prefix_trans a b c h k = ground arith

abbrev pub prefixes : IpNets Prefix
prefixes = record {
  addr = addr;
  prefix_len = λ p. p.len;
  host = host;
  contains = contains;
  same_prefix = same_prefix;
  same_prefix_refl = same_prefix_refl;
  same_prefix_sym = same_prefix_sym;
  same_prefix_trans = same_prefix_trans;
}

-- The list of prefixes as an `IpnetTrie`.
abbrev pub prefix_list : {E : Type 0} → IpnetTrie Prefix prefixes E (List (Prefix × E))
prefix_list = record {
  empty = [];
  insert = λ t p e. (p, e) ∷ t;
  exact_match = exact_match same_prefix contains (λ p. p.len) same_prefix-eq;
  longest_match = longest_match same_prefix contains (λ p. p.len) same_prefix-eq;
  exact_match-empty = λ p. refl;
  exact_match-insert = λ t p q e. refl;
  exact_match-same = exact_match-same same_prefix contains (λ p. p.len) same_prefix-eq;
  longest_match-some =
      longest_match-some same_prefix contains (λ p. p.len) same_prefix-eq same_prefix_refl;
  longest_match-longest =
      longest_match-longest same_prefix contains (λ p. p.len) same_prefix-eq same_prefix_refl;
  longest_match-none =
      longest_match-none same_prefix contains (λ p. p.len) same_prefix-eq same_prefix_refl;
}
