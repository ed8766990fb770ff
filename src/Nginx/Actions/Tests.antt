-- ===== src/Nginx/Actions/Tests.antt =====
-- A run of Nginx/Actions.antt, and the theorem of Nginx/Orders.antt at it.
use ventopanel.Base.{
  ℕ, ◌≡◌, refl, true, false, Option, none, List, [], ◌∷◌, Text, text, lookup, arith,
}
use ventopanel.Nginx.Page.{select_first}
use ventopanel.Nginx.Actions.{
  Actions, Event, enable, reload, loaded_servers, loaded_vhosts, clicked_enable, clicked_disable,
  clicked_test, clicked_reload, clicked_refresh, mutate, step, run,
}
use ventopanel.Nginx.Orders.{IsOrdered, run-IsOrdered}

abbrev untouched : Actions
untouched = record {
  server_id = [];
  vhosts = [];
  refreshed = [];
  waiting = [];
  sent = [];
  browser = record { in_browser = true; token = none; location = text "/nginx" };
}

abbrev reads : Text → Option ℕ
reads body = none

-- Nothing can be tested before there is a server, a host that is not enabled cannot be disabled, and the last
-- button waits for its reply.
abbrev clicks : List Event
clicks =
    clicked_test
    ∷ loaded_servers (text "s1" ∷ text "s2" ∷ []) []
    ∷ loaded_vhosts ((text "shop", false) ∷ [])
    ∷ clicked_disable (text "shop")
    ∷ clicked_enable (text "shop")
    ∷ clicked_reload
    ∷ clicked_reload
    ∷ []

sends_what_is_offered :
    (run reads untouched clicks).sent ≡ enable (text "s1") (text "shop") ∷ reload (text "s1") ∷ []
unfolding run step mutate select_first lookup
sends_what_is_offered = refl

-- Refresh asks for the status and the hosts of a server with no id, where there is no server.
refreshes_no_server : (run reads untouched (clicked_refresh false ∷ [])).refreshed ≡ [] ∷ []
unfolding run step
refreshes_no_server = refl

run-IsOrdered_example : IsOrdered (run reads untouched clicks)
run-IsOrdered_example = run-IsOrdered reads clicks untouched (tt, λ k. omega arith)
