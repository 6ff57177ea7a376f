-- ===== src/Examples/Tokens.antt =====
-- Two peers with tokens; the MAC is the text itself.
use h3llo.Base.{ℕ, List, [], ◌∷◌, Bool, true, false, String, str_eq, ◌≢◌, arith, ap}

abbrev pub mac : String → ℕ → String
mac text key = text

abbrev pub verify : String → ℕ → String → Bool
verify text key digest = str_eq text digest

abbrev pub peers : List (String × String)
peers = ("a", "correct-horse") ∷ ("b", "battery-staple") ∷ []

abbrev pub is_empty : String → Bool
is_empty String.[] = true
is_empty (String.◌∷◌ c s) = false

pub token_full : "battery-staple" ≢ String.[]
token_full e = let differs = ap is_empty e in ground arith
