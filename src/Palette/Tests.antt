-- ===== src/Palette/Tests.antt =====
-- Runs of the definitions for frontend/components/command-palette.tsx, and the theorem at a concrete
-- input.
use ventopanel.Base.{◌≡◌, refl, [], ◌∷◌, text, length, List}
use ventopanel.Palette.{Item, all_items, filtered, matches, Named}

abbrev items : List Item
items = all_items (record { id = text "7"; name = text "web"; detail = text "10.0.0.7" } ∷ []) []

finds_server : length (filtered items (text "0.7")) ≡ 1
unfolding filtered matches all_items
finds_server = refl

shows_twelve : length (filtered items (text "  ")) ≡ 12
unfolding filtered matches all_items
shows_twelve = refl

abbrev two_servers : List Named
two_servers =
    record { id = text "7"; name = text "log-eu"; detail = text "10.0.0.7" }
    ∷ record { id = text "8"; name = text "web"; detail = text "10.0.0.8" }
    ∷ []

abbrev two_sites : List Named
two_sites = record { id = text "3"; name = text "blog"; detail = text "blog.example" } ∷ []

shows_groups : length (filtered (all_items two_servers two_sites) (text "log")) ≡ 4
unfolding filtered matches all_items
shows_groups = refl
