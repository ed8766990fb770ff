-- ===== src/Refresh/Tests.antt =====
-- Runs of the definitions for frontend/components/refresh-indicator.tsx.
use ventopanel.Base.{◌≡◌, refl, false, text, show}
use ventopanel.Refresh.{shown}

never_fetched : shown false 5000 0 15 ≡ text "Auto-refresh: every 15s"
unfolding shown show
never_fetched = refl

fetched_now : shown false 9999 5000 15 ≡ text "Updated just now"
unfolding shown
fetched_now = refl

fetched_before : shown false 17500 5000 15 ≡ text "Updated 12s ago"
unfolding shown show
fetched_before = refl

fetched_ahead : shown false 4000 5000 15 ≡ text "Updated just now"
unfolding shown
fetched_ahead = refl
