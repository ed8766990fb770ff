-- ===== src/Terminal/Tests.antt =====
-- A run of the definitions for frontend/components/terminal-client.tsx, and the theorem at it.
use ventopanel.Base.{◌≡◌, refl, List, [], ◌∷◌, text}
use ventopanel.Terminal.Socket.{
  Event, socket_opened, typed, resized, socket_closed, size, mounted, connect, send, on_open,
  on_data, on_resize, step, run,
}
use ventopanel.Terminal.Sizes.{IsSized, run-IsSized}

abbrev session : List Event
session =
    resized 100 30
    ∷ socket_opened
    ∷ typed 0 0 (text "ls")
    ∷ resized 90 30
    ∷ socket_closed
    ∷ typed 80 24 (text "x")
    ∷ socket_opened
    ∷ []

sends_size_first : (run (mounted 80 24) session).socket.sent ≡ size 80 24 ∷ []
unfolding run step mounted connect send on_open on_data on_resize
sends_size_first = refl

run-IsSized_example : IsSized (run (mounted 80 24) session)
run-IsSized_example = run-IsSized 80 24 session
