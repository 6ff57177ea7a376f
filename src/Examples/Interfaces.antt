-- ===== src/Examples/Interfaces.antt =====
-- Four routes to one address: a longer prefix in another table, two in the main table, and one
-- through the TUN device, whose index is 7.
use h3llo.Base.{
  ℕ, List, [], ◌∷◌, Option, none, some, Bool, true, false, ◌≡◌, ◌≢◌, ◌↔◌, refl, Memᴰ, String,
}
use h3llo.Base.Text.{trim, trim_left, trim_right}
use h3llo.Net.{v4}
use h3llo.Config.Valid.{IsDistinct}
use h3llo.Bind.{
  Routes, insert_match, sort_matches, pick_indexes, route_match, matches_of, matching_route_indexes,
}
use h3llo.Bind.Preferred.{choice}
use h3llo.Bind.Ranked.{IsWayTo, IsInOrder, matching_route_indexes-IsInOrder}

record Entry : Type 0 where
  index : Option ℕ
  len : ℕ
  leads_there : Bool
  table_id : ℕ
  cost : Option ℕ

abbrev entries : Routes Entry
entries = record {
  if_index = λ e. e.index;
  prefix = λ e. e.len;
  contains = λ e target. some e.leads_there;
  table = λ e. e.table_id;
  metric = λ e. e.cost;
}

abbrev listed : List Entry
listed =
    record { index = some 2; len = 0; leads_there = true; table_id = 254; cost = some 100 }
    ∷ record { index = some 7; len = 1; leads_there = true; table_id = 254; cost = none }
    ∷ record { index = some 3; len = 0; leads_there = true; table_id = 254; cost = none }
    ∷ record { index = some 4; len = 8; leads_there = true; table_id = 100; cost = some 5 }
    ∷ record { index = some 5; len = 24; leads_there = false; table_id = 254; cost = none }
    ∷ []

tried : matching_route_indexes entries listed (v4 9) (some 7) ≡ 4 ∷ 3 ∷ 2 ∷ []
unfolding matching_route_indexes pick_indexes sort_matches matches_of route_match insert_match
tried = refl

matching_route_indexes-IsInOrder_example :
    ((idx : ℕ)
      → Memᴰ idx (matching_route_indexes entries listed (v4 9) (some 7))
        ↔ (IsWayTo entries listed (v4 9) idx × (some 7 ≢ some idx)))
    × (IsDistinct (matching_route_indexes entries listed (v4 9) (some 7))
        × IsInOrder entries listed (v4 9) (matching_route_indexes entries listed (v4 9) (some 7)))
matching_route_indexes-IsInOrder_example =
    matching_route_indexes-IsInOrder entries listed (v4 9) (some 7)

abbrev names : List String
names = "eth0" ∷ "wlan0" ∷ []

abbrev preferred : Option String
preferred = some " wlan0 "

chosen : choice preferred names ≡ some "wlan0"
unfolding trim trim_left trim_right
chosen = refl
