-- ===== src/Dashboard.antt =====
-- frontend/app/(dashboard)/page.tsx: the colours of the statuses, the numbers of its cards, and when it shows the wizard.
pub mod Colors
mod Tests
use ventopanel.Base.{
  ℕ, ◌+◌, ◌==◌, ltb, not, ◌&&◌, if◌then◌else◌, Bool, true, false, Option, none, some, List, [], ◌∷◌,
  ◌++◌, Text, text, keep_if, length, includes, lookup, show,
}
use ventopanel.Forms.Typing.{some_or}
use ventopanel.Monitor.Points.{rounded_pct}
use ventopanel.Onboarding.{Wizard, is_onboarding_done}

pub data Color : Type 0 where
  green blue yellow red gray : Color

-- `STATUS_COLORS`
abbrev pub status_colors : List (Text × Color)
status_colors =
    (text "deployed", green)
    ∷ (text "ssl_pending", green)
    ∷ (text "connected", green)
    ∷ (text "ready_for_deploy", green)
    ∷ (text "provisioned", blue)
    ∷ (text "pending", yellow)
    ∷ (text "deploying", blue)
    ∷ (text "provisioning", blue)
    ∷ (text "deploy_failed", red)
    ∷ (text "provision_failed", red)
    ∷ (text "connection_failed", red)
    ∷ (text "error", red)
    ∷ (text "access_denied", red)
    ∷ (text "failed", red)
    ∷ (text "draft", gray)
    ∷ []

-- `statusColor`; no status has the name of a member that every object inherits.
unfoldable pub status_color : Text → Color
status_color s = some_or (lookup s status_colors) gray

abbrev pub error_statuses : List Text
error_statuses =
    text "error"
    ∷ text "failed"
    ∷ text "deploy_failed"
    ∷ text "provision_failed"
    ∷ text "connection_failed"
    ∷ text "access_denied"
    ∷ []

unfoldable pub is_error_status : Text → Bool
is_error_status status = includes error_statuses status

-- `recentErrors`, for the new statuses of the recent events.
unfoldable pub recent_errors : List Text → ℕ
recent_errors statuses = length (keep_if is_error_status statuses)

-- The width of `MiniBar`, in percent.
unfoldable pub mini_bar : ℕ → ℕ → ℕ
mini_bar value max = if ltb 0 max then rounded_pct value max else 0

-- `DashboardSummary` of frontend/lib/api.ts, as far as the cards count with it.
pub record Summary : Type 0 where
  pub servers_connected : ℕ
  pub servers_failed : ℕ
  pub sites_up : ℕ
  pub sites_down : ℕ
  pub deploys_success : ℕ
  pub deploys_failed : ℕ

-- The line below the number of servers.
unfoldable pub servers_line : Option Summary → Text
servers_line none = text "0 connected"
servers_line (some s) =
    if ltb 0 s.servers_failed
    then show s.servers_failed ++ text " failed · " ++ show s.servers_connected ++ text " connected"
    else show s.servers_connected ++ text " connected"

-- The bar of the card for the uptime.
unfoldable pub uptime_bar : Summary → ℕ
uptime_bar s = mini_bar s.sites_up (s.sites_up + s.sites_down)

-- The deploys of the last day.
unfoldable pub deploys_today : Option Summary → ℕ
deploys_today none = 0
deploys_today (some s) = s.deploys_success + s.deploys_failed

abbrev pub has_no_servers : {A : Type 0} → Option (List A) → Bool
has_no_servers none = false
has_no_servers (some []) = true
has_no_servers (some (server ∷ servers)) = false

-- The effect that shows the wizard.
unfoldable pub show_wizard : {A : Type 0} → Wizard → Option (List A) → Bool → Bool
show_wizard w servers shown =
    if not (is_onboarding_done w) && has_no_servers servers then true else shown
