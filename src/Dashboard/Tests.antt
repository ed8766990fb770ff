-- ===== src/Dashboard/Tests.antt =====
-- Runs of the definitions for frontend/app/(dashboard)/page.tsx, and the theorems at concrete inputs.
use ventopanel.Base.{ℕ, ◌≡◌, refl, true, false, some, [], ◌∷◌, text, show}
use ventopanel.Monitor.Points.{rounded_pct}
use ventopanel.Onboarding.{started, is_onboarding_done}
use ventopanel.Dashboard.{
  is_error_status, recent_errors, Summary, servers_line, uptime_bar, mini_bar, show_wizard,
}

abbrev summary : Summary
summary = record {
  servers_connected = 3;
  servers_failed = 1;
  sites_up = 2;
  sites_down = 1;
  deploys_success = 5;
  deploys_failed = 0;
}

counts_errors : recent_errors (text "failed" ∷ text "deployed" ∷ text "error" ∷ []) ≡ 2
unfolding recent_errors is_error_status
counts_errors = refl

tells_failures : servers_line (some summary) ≡ text "1 failed · 3 connected"
unfolding servers_line show
tells_failures = refl

bar_is_rounded : uptime_bar summary ≡ 67
unfolding uptime_bar mini_bar rounded_pct
bar_is_rounded = refl

shows_wizard_without_servers : show_wizard {A = ℕ} started (some []) false ≡ true
unfolding show_wizard is_onboarding_done
shows_wizard_without_servers = refl
