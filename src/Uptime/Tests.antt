-- ===== src/Uptime/Tests.antt =====
-- Runs of the definitions for frontend/app/(dashboard)/uptime/page.tsx.
use ventopanel.Base.{◌≡◌, refl, List, [], ◌∷◌, Text, text}
use ventopanel.Uptime.{red_dot, muted_dot, status_dot, up_count, down_count, unchecked}

abbrev statuses : List Text
statuses = text "up" ∷ [] ∷ text "down" ∷ text "up" ∷ []

counts : (up_count statuses ≡ 2) × (down_count statuses ≡ 1) × (unchecked statuses ≡ 1)
unfolding up_count down_count unchecked
counts = (refl, refl, refl)

-- A status that is neither is red, and in no count.
unknown_is_red : (status_dot (text "slow") ≡ red_dot) × (status_dot [] ≡ muted_dot)
unfolding status_dot
unknown_is_red = (refl, refl)
