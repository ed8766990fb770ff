-- ===== src/Servers/Tests.antt =====
-- Runs of the definitions for frontend/app/(dashboard)/servers/[id]/page.tsx.
use ventopanel.Base.{◌≡◌, refl}
use ventopanel.Monitor.Points.{rounded_pct}
use ventopanel.Servers.{red_bar, yellow_bar, stat_pct, bar_color}

-- Nine tenths are red from 89.5 percent on.
rounds_into_red : bar_color (stat_pct 895 1000) ≡ red_bar
unfolding bar_color stat_pct rounded_pct
rounds_into_red = refl

stays_yellow : bar_color (stat_pct 894 1000) ≡ yellow_bar
unfolding bar_color stat_pct rounded_pct
stays_yellow = refl

never_over_the_frame : stat_pct 3000 1000 ≡ 100
unfolding stat_pct rounded_pct
never_over_the_frame = refl
