-- ===== src/Onboarding/Steps.antt =====
-- What holds in each step of Onboarding.antt.
use ventopanel.Base.{◌≡◌, ◌≢◌, true, none, List, [], ◌∷◌, arith}
use ventopanel.Onboarding.{
  connect, done, Wizard, is_onboarding_done, dismiss, handle_add_server, handle_connect, Event,
  typed, got_started, went_back, skipped, dismissed_it, added, tried, next, run,
}

abbrev pub HasServer : Wizard → Type 0
HasServer w =
    (w.step ≡ connect → w.server_id ≢ none)
    × (w.step ≡ done → w.server_id ≢ none)
    × (w.dismissed ≡ true → is_onboarding_done w ≡ true)

next-HasServer : (w : Wizard) (e : Event) → HasServer w → HasServer (next w e)
unfolding next dismiss handle_add_server handle_connect is_onboarding_done
next-HasServer w (typed name host) h = h
next-HasServer w got_started h = ground arith
next-HasServer w went_back h = ground arith
next-HasServer w (added created message) h = ground arith
next-HasServer w (tried connected) h = ground arith
next-HasServer w skipped h = ground arith
next-HasServer w dismissed_it h = ground arith

-- Whatever is typed and clicked, and whether the calls succeed or fail, the wizard tests a connection and
-- ends only when a server was created, and once it was dismissed the browser remembers it.
pub run-HasServer : (es : List Event) (w : Wizard) → HasServer w → HasServer (run w es)
unfolding run
run-HasServer [] w h = h
run-HasServer (e ∷ es) w h = run-HasServer es (next w e) (next-HasServer w e h)
