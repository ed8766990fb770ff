-- ===== src/Terminal/Page.antt =====
-- frontend/app/(dashboard)/terminal/page.tsx: the choice of the server whose terminal is shown.
use ventopanel.Base.{
  ℕ, ◌+◌, ◌<◌, Option, none, some, List, [], ◌∷◌, Text, truthy, if◌then◌else◌, arith,
}

pub record TerminalPage : Type 0 where
  server_id : Text
  key : ℕ

data Event : Type 0 where
  chose_server : Text → Event
  reconnected : Event

abbrev first_page : TerminalPage
first_page = record { server_id = []; key = 0 }

-- `onChange` of the list.
abbrev choose : Text → TerminalPage → TerminalPage
choose id p = record { server_id = id; key = p.key + 1 }

-- `onClick` of the button, which is there only for a server.
abbrev reconnect : TerminalPage → TerminalPage
reconnect p = if truthy p.server_id then record p { key = p.key + 1 } else p

unfoldable step : TerminalPage → Event → TerminalPage
step p (chose_server id) = choose id p
step p reconnected = reconnect p

unfoldable run : TerminalPage → List Event → TerminalPage
run p [] = p
run p (e ∷ es) = run (step p e) es

-- The terminal that is shown: its key, and the server it is for.
unfoldable shown : TerminalPage → Option (ℕ × Text)
shown p = if truthy p.server_id then some (p.key, p.server_id) else none

step-le : (p : TerminalPage) (e : Event) → p.key < (step p e).key + 1
unfolding step
step-le p (chose_server id) = omega arith
step-le p reconnected = grind arith

run-le : (p : TerminalPage) (es : List Event) → p.key < (run p es).key + 1
unfolding run
run-le p [] = omega arith
run-le p (e ∷ es) = omega (arith, step-le p e, run-le (step p e) es)

-- A server that is chosen, also the one that is shown, has a terminal of a new key, and so has
-- everything that is shown after it.
run-new :
    (p : TerminalPage) (id : Text) (es : List Event) → p.key < (run p (chose_server id ∷ es)).key
unfolding run step
run-new p id es = omega (arith, run-le (record { server_id = id; key = p.key + 1 }) es)
