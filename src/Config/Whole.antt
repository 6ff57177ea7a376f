-- ===== src/Config/Whole.antt =====
-- The validation of a whole configuration.
use h3llo.Base.{
  ℕ, ◌<◌, ◌≤◌, ltb, leb, ◌==◌, List, [], ◌∷◌, Option, none, some, Bool, true, false, String, str_eq,
  eq_iff, ◌≡◌, ◌↔◌, refl, subst, ok, any, All, Memᴰ, any-mem, mem-any, arith, iff_trans, iff_both,
  append-nil_iff, pushed_unless, pushed_if,
}
use mathlib.Core.List.Memᴰ.{head, tail}
use h3llo.Config.{Config, LocalH3, Tuning}
use h3llo.Config.Defaults.{default_tuning}
use h3llo.Config.Validation.{
  field_must_be_positive, Errors, result_of, check_peers, validate_peers, check_positive,
  check_durations, duration_checks, cc_algorithms, check_tuning, check_local_h3, errors_of,
  validate,
}
use h3llo.Config.Valid.{
  IsValidTuning, IsValidLocalH3, IsValidConfig, check_trimmed-IsName, not_empty_iff,
}
use h3llo.Config.Accepted.{result_iff, validate_peers_iff}

positive_iff : (n : ℕ) (field : String) → (check_positive n field ≡ []) ↔ (0 < n)
positive_iff n field = iff_trans (pushed_if (n == 0) (field_must_be_positive field)) (nonzero n)
  where
    nonzero : (k : ℕ) → ((k == 0) ≡ false) ↔ (0 < k)
    nonzero k = ground arith

durations_iff :
    (checks : List (String × ℕ))
    → (check_durations checks ≡ []) ↔ All (λ (c : String × ℕ). 0 < c.1) checks
durations_iff [] = (λ h. tt, λ h. refl)
durations_iff ((field, dur) ∷ checks) =
    iff_trans (append-nil_iff (check_positive dur field) (check_durations checks))
      (iff_both (positive_iff dur field) (durations_iff checks))

below_iff : (a b : ℕ) → (leb b a ≡ false) ↔ (a < b)
below_iff a b = ground arith

at_most_iff : (a b : ℕ) → (ltb b a ≡ false) ↔ (a ≤ b)
at_most_iff a b = ground arith

known_iff :
    (names : List String) (s : String) → (any (λ name. str_eq name s) names ≡ true) ↔ Memᴰ s names
known_iff names s = (
  λ h.
      let found = any-mem (λ name. str_eq name s) names h in
      subst (λ x. Memᴰ x names) ((eq_iff found.0 s).0 found.1.1) found.1.0,
  λ m. mem-any (λ name. str_eq name s) names s m ((eq_iff s s).1 refl),
)

-- The tuning passes exactly if it is valid.
pub check_tuning_iff : (t : Tuning) → (check_tuning t ≡ []) ↔ IsValidTuning t
unfolding check_tuning
check_tuning_iff t = iff_trans (append-nil_iff _ _) (
    iff_both (positive_iff t.io.packet_queue_depth "tuning.packet_queue_depth") (
      iff_trans (append-nil_iff _ _) (
        iff_both (durations_iff (duration_checks t)) (
          iff_trans (append-nil_iff _ _) (
            iff_both
              (iff_trans (pushed_if _ _)
                (below_iff t.h3.h3_keepalive_interval t.h3.h3_max_idle_timeout))
              (iff_trans (append-nil_iff _ _) (
                iff_both
                  (iff_trans (pushed_unless _ _) (known_iff cc_algorithms t.h3.h3_cc_algorithm))
                  (iff_trans (pushed_if _ _)
                    (at_most_iff t.reconnect_backoff_min t.reconnect_backoff_max)))))))))

local_h3_iff : (o : Option LocalH3) → (check_local_h3 o ≡ []) ↔ IsValidLocalH3 o
local_h3_iff none = (λ h. tt, λ h. refl)
local_h3_iff (some h) = iff_trans (append-nil_iff _ _) (
    iff_both (check_trimmed-IsName h.cert "local.h3" "cert")
      (check_trimmed-IsName h.key "local.h3" "key"))

errors_iff : (errors : Errors) → (errors_of (result_of errors) ≡ []) ↔ (result_of errors ≡ ok tt)
errors_iff [] = (λ h. refl, λ h. refl)
errors_iff (e ∷ errors) = (λ h. cc, λ h. cc)

pub validate_iff :
    {Net : Type 0} (same_net : Net → Net → Bool)
    (same_net_iff : (a b : Net) → (same_net a b ≡ true) ↔ (a ≡ b)) (net_to_string : Net → String)
    (c : Config Net)
    → (validate same_net net_to_string c ≡ ok tt) ↔ IsValidConfig c
unfolding validate validate_peers
validate_iff same_net same_net_iff net_to_string c = iff_trans (result_iff _) (
    iff_trans (append-nil_iff _ _) (
      iff_both (check_tuning_iff c.tuning) (
        iff_trans (append-nil_iff _ _) (
          iff_both (local_h3_iff c.locals.h3) (
            iff_trans (append-nil_iff _ _) (
              iff_both (not_empty_iff c.locals.tun.addrs "local.tun" "addrs") (
                iff_trans (errors_iff (check_peers same_net net_to_string [] [] c.peers))
                  (validate_peers_iff same_net same_net_iff net_to_string c.peers))))))))

-- The default settings are valid.
pub default_tuning-IsValidTuning : IsValidTuning default_tuning
default_tuning-IsValidTuning = (
  omega arith,
  (omega arith, (omega arith, (tail (tail (tail (tail (head refl)))), omega arith))),
)
