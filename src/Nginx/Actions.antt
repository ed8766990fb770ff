-- ===== src/Nginx/Actions.antt =====
-- The buttons of frontend/app/(dashboard)/nginx/page.tsx. A mutation is two steps, from its click to its request and
-- from the reply on.
mod Tests
use ventopanel.Base.{
  ℕ, if◌then◌else◌, Bool, true, false, not, ◌&&◌, ◌||◌, Option, none, some, List, [], ◌∷◌, ◌++◌,
  Text, truthy, lookup, get_elem?, remove_at, pending, is_of,
}
use ventopanel.Api.Session.{Browser}
use ventopanel.Api.Fetch.{Reply, perform}
use ventopanel.Api.Fetch.Performed.{replying}
use ventopanel.Api.Calls.Nginx.{
  enable_nginx_vhost, disable_nginx_vhost, delete_nginx_vhost, test_nginx_config, reload_nginx,
}
use ventopanel.Nginx.Page.{select_first}

-- The requests of the buttons, with the server and the virtual host.
pub data NginxCall : Type 0 where
  enable disable delete : Text → Text → NginxCall
  test reload : Text → NginxCall

-- One mutation for each kind.
abbrev pub kind_of : NginxCall → ℕ
kind_of (enable server_id name) = 0
kind_of (disable server_id name) = 1
kind_of (delete server_id name) = 2
kind_of (test server_id) = 3
kind_of (reload server_id) = 4

-- `vhosts` is what the query holds for the server: each name with whether it is enabled. `refreshed` has the servers whose status and hosts Refresh asked for.
pub record Actions : Type 0 where
  pub server_id : Text
  pub vhosts : List (Text × Bool)
  pub refreshed : List Text
  pub waiting : List NginxCall
  pub sent : List NginxCall
  pub browser : Browser

-- `mutate` of a button that is not offered while its mutation is pending.
unfoldable pub mutate : NginxCall → Actions → Actions
mutate call a =
    if pending (is_of kind_of (kind_of call)) a.waiting
    then a
    else record a { waiting = a.waiting ++ call ∷ []; sent = a.sent ++ call ∷ [] }

-- A choice of the server comes with what the query holds for it. `clicked_delete` comes with the answer of `confirm`,
-- and `clicked_refresh` with whether the query of the hosts waits for its reply.
pub data Event : Type 0 where
  loaded_servers : List Text → List (Text × Bool) → Event
  chose_server : Text → List (Text × Bool) → Event
  loaded_vhosts : List (Text × Bool) → Event
  clicked_enable clicked_disable : Text → Event
  clicked_delete : Text → Bool → Event
  clicked_test clicked_reload : Event
  clicked_refresh : Bool → Event
  replied : ℕ → Option Reply → Event

abbrev pub is_shown : Option Bool → Bool → Bool
is_shown none enabled = false
is_shown (some true) enabled = enabled
is_shown (some false) enabled = not enabled

-- The row of the virtual host is shown with this state; there is no table without a server.
abbrev pub is_offered : Actions → Text → Bool → Bool
is_offered a name enabled = truthy a.server_id && is_shown (lookup name a.vhosts) enabled

-- `parse` reads a reply, of which only messages are made.
module _ {R : Type 0} (parse : Text → Option R) where
  unfoldable pub finish : NginxCall → Option Reply → Actions → Actions
  finish (enable sid name) reply a = record a {
    browser = (perform parse (replying reply) (enable_nginx_vhost sid name) a.browser).1;
  }
  finish (disable sid name) reply a = record a {
    browser = (perform parse (replying reply) (disable_nginx_vhost sid name) a.browser).1;
  }
  finish (delete sid name) reply a = record a {
    browser = (perform parse (replying reply) (delete_nginx_vhost sid name) a.browser).1;
  }
  finish (test sid) reply a = record a {
    browser = (perform parse (replying reply) (test_nginx_config sid) a.browser).1;
  }
  finish (reload sid) reply a = record a {
    browser = (perform parse (replying reply) (reload_nginx sid) a.browser).1;
  }

  unfoldable pub step : Actions → Event → Actions
  step a (loaded_servers servers vhosts) =
      if truthy a.server_id
      then a
      else record a { server_id = select_first servers a.server_id; vhosts = vhosts }
  step a (chose_server sid vhosts) = record a { server_id = sid; vhosts = vhosts }
  step a (loaded_vhosts vhosts) = record a { vhosts = vhosts }
  step a (clicked_enable name) =
      if is_offered a name false then mutate (enable a.server_id name) a else a
  step a (clicked_disable name) =
      if is_offered a name true then mutate (disable a.server_id name) a else a
  step a (clicked_delete name is_confirmed) =
      if (is_offered a name true || is_offered a name false) && is_confirmed
      then mutate (delete a.server_id name) a
      else a
  step a clicked_test = if truthy a.server_id then mutate (test a.server_id) a else a
  step a clicked_reload = if truthy a.server_id then mutate (reload a.server_id) a else a
  step a (clicked_refresh loading) =
      if loading then a else record a { refreshed = a.refreshed ++ a.server_id ∷ [] }
  step a (replied i reply) = elim (get_elem? a.waiting i) [
    | none ↦ a
    | some call ↦ finish call reply (record a { waiting = remove_at i a.waiting })
  ]

  unfoldable pub run : Actions → List Event → Actions
  run a [] = a
  run a (e ∷ es) = run (step a e) es
