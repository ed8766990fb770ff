-- ===== src/Onboarding/Tests.antt =====
-- Runs of the definitions for frontend/components/onboarding-wizard.tsx, and the theorem at a concrete
-- input.
use ventopanel.Base.{◌≡◌, refl, true, false, some, List, [], ◌∷◌, text, arith}
use ventopanel.Onboarding.{
  done, started, dismiss, handle_add_server, handle_connect, Event, typed, got_started, added,
  tried, dismissed_it, next, run,
}
use ventopanel.Onboarding.Steps.{HasServer, run-HasServer}

abbrev session : List Event
session =
    got_started
    ∷ added (some (text "s1")) []
    ∷ typed (text "web") (text "10.0.0.7")
    ∷ added (some (text "s1")) []
    ∷ tried false
    ∷ tried true
    ∷ dismissed_it
    ∷ []

ends_connected : (run started session).step ≡ done
unfolding run next dismiss handle_add_server handle_connect
ends_connected = refl

run-HasServer_example : HasServer (run started session)
run-HasServer_example = run-HasServer session started (ground arith)
