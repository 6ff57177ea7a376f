-- ===== src/Bind/Preferred.antt =====
-- Which interface a socket is bound to.
use h3llo.Base.{
  List, [], ◌∷◌, Option, none, some, false, not, ◌||◌, String, str_eq, eq_iff, ◌≡◌, refl, sym, ap,
  if◌then◌else◌, any, retain, ok, Bool-cases, inl, inr,
}
use h3llo.Base.Text.{trim}
use h3llo.Bind.{
  filter_preferred_interfaces, or_all, candidates_of, first_name, select_bind_interface,
}

-- The choice written out: the preferred name, without white space at its ends, if it is not blank
-- and among the names; otherwise the first one.
abbrev pub choice : Option String → List String → Option String
choice none names = first_name names
choice (some preferred) names =
    if not (str_eq (trim preferred) "")
    then (if any (λ name. str_eq (trim preferred) name) names
        then some (trim preferred)
        else first_name names)
    else first_name names

first_kept :
    (p : String) (all names : List String)
    → first_name (or_all (retain (λ name. str_eq p name || false) names) all)
      ≡ (if any (λ name. str_eq p name) names then some p else first_name all)
first_kept p all [] = refl
first_kept p all (name ∷ names) = elim (Bool-cases (str_eq p name)) [
  | inl t ↦ rw t (ap some (sym ((eq_iff p name).0 t)))
  | inr f ↦ rw f (first_kept p all names)
]

candidates-choice :
    (preferred : Option String) (names : List String)
    → first_name (candidates_of preferred names) ≡ choice preferred names
unfolding filter_preferred_interfaces
candidates-choice none names = refl
candidates-choice (some p) names = elim (Bool-cases (str_eq (trim p) "")) [
  | inl t ↦ rw t refl
  | inr f ↦ rw f (first_kept (trim p) names names)
]

-- A socket is bound to the preferred interface if it is among those that the probe names, whatever
-- white space stands around it, and otherwise, also without a preference or with a blank one, to the
-- first that the probe names; without a name it stays unbound.
pub select_bind_interface-choice :
    (names : List String) (preferred : Option String)
    → select_bind_interface (ok names) preferred ≡ choice preferred names
unfolding select_bind_interface
select_bind_interface-choice [] none = refl
select_bind_interface-choice [] (some p) = elim (Bool-cases (str_eq (trim p) "")) [
  | inl t ↦ rw t refl
  | inr f ↦ rw f refl
]
select_bind_interface-choice (name ∷ names) preferred = candidates-choice preferred (name ∷ names)
