-- ===== src/Monitor/Tests.antt =====
-- Runs of the definitions for frontend/app/(dashboard)/monitor/page.tsx, and the theorems at concrete inputs.
use ventopanel.Base.{
  ℕ, ◌≤◌, ◌≡◌, refl, subst, Option, none, some, List, [], ◌∷◌, Text, text, show, arith, map,
  take_last,
}
use ventopanel.Monitor.Points.{Snapshot, rounded_pct, to_point}
use ventopanel.Monitor.Stream.{
  Stream, Event, chose, replied, metrics_arrived, connection_failed, timer_fired, first, start,
  stop, choose, preflight_done, open_stream, on_error, on_timer, on_metrics, step, run,
}
use ventopanel.Monitor.Kept.{points_of, run-history}
use ventopanel.Monitor.Bounds.{IsBounded, IsSound, run-IsBounded}
use ventopanel.Monitor.Selected.{FollowsChoice, run-FollowsChoice}

-- Every payload that is not empty has the same metrics.
abbrev half_used : Snapshot ℕ
half_used = record { ts = 1; ram_total_mb = 200; ram_used_mb = 101; rest = 7 }

abbrev reads : Text → Option (Snapshot ℕ)
reads [] = none
reads (c ∷ payload) = some half_used

abbrev HasSoundMetrics : Option (Snapshot ℕ) → Type 0
HasSoundMetrics none = Unit {0}
HasSoundMetrics (some snapshot) = snapshot.ram_used_mb ≤ snapshot.ram_total_mb

reads-IsSound : IsSound reads show
reads-IsSound [] snapshot e = cc
reads-IsSound (c ∷ payload) snapshot e = subst HasSoundMetrics e (omega arith)

-- A connection that fails once.
abbrev events : List Event
events =
    chose (text "s1")
    ∷ replied 0 none
    ∷ metrics_arrived (text "a")
    ∷ connection_failed
    ∷ timer_fired
    ∷ []

halves_are_rounded_up : (to_point show half_used).ram_pct ≡ 51
unfolding to_point rounded_pct
halves_are_rounded_up = refl

connects_again :
    let s : Stream ℕ = run reads show first events in
    (s.source ≡ some (text "s1")) × (s.retries ≡ 1)
unfolding run step choose start stop preflight_done open_stream on_error on_timer on_metrics
connects_again = (refl, refl)

abbrev payloads : List Text
payloads = text "a" ∷ [] ∷ text "b" ∷ []

abbrev connected : Stream ℕ
connected = record first {
  server_id = text "s1";
  server_ref = text "s1";
  source = some (text "s1");
}

run-history_example :
    (run reads show connected (map metrics_arrived payloads)).history
    ≡ take_last 40 (points_of reads show payloads)
run-history_example = run-history reads show payloads connected (text "s1") refl refl

run-IsBounded_example : IsBounded reads show (run reads show first events)
run-IsBounded_example =
    run-IsBounded reads show events first reads-IsSound (omega arith, tt, omega arith, tt)

run-FollowsChoice_example : FollowsChoice (run reads show first events)
run-FollowsChoice_example = run-FollowsChoice reads show events first (refl, tt) (refl, tt, tt)
