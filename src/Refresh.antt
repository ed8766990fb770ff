-- ===== src/Refresh.antt =====
-- frontend/components/refresh-indicator.tsx: when a page was fetched last. A time is its milliseconds since 1970.
mod Tests
use ventopanel.Audit.Times.{IsWhole}
use ventopanel.Base.{
  ℕ, zero, suc, ◌+◌, ◌-◌, ◌*◌, ◌/◌, ◌<◌, ◌≤◌, ◌≡◌, ◌↔◌, refl, leb, ltb, Bool, true, false,
  if◌then◌else◌, Option, none, some, ◌++◌, Text, text, show, arith,
}

-- `secondsAgo`: a time that lies ahead has a negative number of them, which is shown as 0 would be.
unfoldable seconds_ago : ℕ → ℕ → Option ℕ
seconds_ago now zero = none
seconds_ago now (suc n) = some ((now - suc n) / 1000)

abbrev age_text : ℕ → Text
age_text seconds =
    if ltb seconds 5
    then text "Updated just now"
    else text "Updated " ++ show seconds ++ text "s ago"

-- What `RefreshIndicator` shows.
unfoldable pub shown : Bool → ℕ → ℕ → ℕ → Text
unfolding seconds_ago
shown true now updated_at interval = text "Refreshing…"
shown false now updated_at interval = elim (seconds_ago now updated_at) [
  | none ↦ text "Auto-refresh: every " ++ show interval ++ text "s"
  | some seconds ↦ age_text seconds
]

-- From the fifth second on it says how many whole seconds ago the page was fetched.
shown-seconds :
    (now u interval n : ℕ)
    → suc u ≤ now
    → 5 ≤ n
    → IsWhole 1000 n (now - suc u)
    → shown false now (suc u) interval ≡ text "Updated " ++ show n ++ text "s ago"
unfolding shown seconds_ago
shown-seconds now u interval n h k (l, r) =
    let same : (now - suc u) / 1000 ≡ n = omega (arith, l, r) in rw same (ground arith)
