-- ===== src/Nginx/Orders.antt =====
-- What the buttons of Nginx/Actions.antt send, and what waits.
use ventopanel.Base.{
  ◌≡◌, refl, inl, inr, if◌then◌else◌, Bool, true, false, ◌&&◌, ◌||◌, Option, Option-cases,
  Bool-cases, List, [], ◌∷◌, ◌++◌, Text, truthy, get_elem?, remove_at, pending, is_of, OneOfEach,
  OneOfEach-append, OneOfEach-remove_at, All, All-append,
}
use ventopanel.Api.Fetch.{Reply}
use ventopanel.Nginx.Page.{select_first}
use ventopanel.Nginx.Actions.{
  NginxCall, enable, disable, delete, test, reload, kind_of, Actions, mutate, Event, loaded_servers,
  chose_server, loaded_vhosts, clicked_enable, clicked_disable, clicked_delete, clicked_test,
  clicked_reload, clicked_refresh, replied, is_offered, finish, step, run,
}

-- The request names a server.
abbrev pub HasServer : NginxCall → Type 0
HasServer (enable sid name) = truthy sid ≡ true
HasServer (disable sid name) = truthy sid ≡ true
HasServer (delete sid name) = truthy sid ≡ true
HasServer (test sid) = truthy sid ≡ true
HasServer (reload sid) = truthy sid ≡ true

abbrev pub IsOrdered : Actions → Type 0
IsOrdered a = All HasServer a.sent × OneOfEach kind_of a.waiting

mutate-IsOrdered :
    (call : NginxCall) (a : Actions) → HasServer call → IsOrdered a → IsOrdered (mutate call a)
unfolding mutate
mutate-IsOrdered call a s (h, o) =
    elim (Bool-cases (pending (is_of kind_of (kind_of call)) a.waiting)) [
      | inl busy ↦ rw (busy, mutate) (h, o)
      | inr free ↦
          rw (free, mutate)
            (
              All-append HasServer a.sent (call ∷ []) h (s, tt),
              OneOfEach-append kind_of a.waiting call free o,
            )
    ]

if-IsOrdered :
    (b : Bool) (a next : Actions)
    → (b ≡ true → IsOrdered next)
    → IsOrdered a
    → IsOrdered (if b then next else a)
if-IsOrdered true a next h k = h refl
if-IsOrdered false a next h k = k

unless-IsOrdered :
    (b : Bool) (a next : Actions) → IsOrdered a → IsOrdered next → IsOrdered (if b then a else next)
unless-IsOrdered true a next h k = h
unless-IsOrdered false a next h k = k

-- What is offered is on a page with a server.
with_server : (server shown : Bool) → (server && shown) ≡ true → server ≡ true
with_server true shown h = refl
with_server false shown h = cc

with_server_twice :
    (server on off sure : Bool)
    → (((server && on) || (server && off)) && sure) ≡ true
    → server ≡ true
with_server_twice true on off sure h = refl
with_server_twice false on off sure h = cc

module _ {R : Type 0} (parse : Text → Option R) where
  finish-IsOrdered :
      (call : NginxCall) (reply : Option Reply) (a : Actions)
      → IsOrdered a
      → IsOrdered (finish parse call reply a)
  unfolding finish
  finish-IsOrdered (enable sid name) reply a h = h
  finish-IsOrdered (disable sid name) reply a h = h
  finish-IsOrdered (delete sid name) reply a h = h
  finish-IsOrdered (test sid) reply a h = h
  finish-IsOrdered (reload sid) reply a h = h

  step-IsOrdered : (e : Event) (a : Actions) → IsOrdered a → IsOrdered (step parse a e)
  unfolding step
  step-IsOrdered (loaded_servers servers vhosts) a h = loaded (truthy a.server_id)
    where
      loaded :
          (b : Bool)
          → IsOrdered (
              if b
              then a
              else record a { server_id = select_first servers a.server_id; vhosts = vhosts })
      loaded true = h
      loaded false = h
  step-IsOrdered (chose_server sid vhosts) a h = h
  step-IsOrdered (loaded_vhosts vhosts) a h = h
  step-IsOrdered (clicked_enable name) a h =
      if-IsOrdered (is_offered a name false) a (mutate (enable a.server_id name) a)
        (λ b. mutate-IsOrdered (enable a.server_id name) a (with_server (truthy a.server_id) _ b) h)
        h
  step-IsOrdered (clicked_disable name) a h =
      if-IsOrdered (is_offered a name true) a (mutate (disable a.server_id name) a)
        (λ b.
          mutate-IsOrdered (disable a.server_id name) a (with_server (truthy a.server_id) _ b) h)
        h
  step-IsOrdered (clicked_delete name is_confirmed) a h =
      if-IsOrdered ((is_offered a name true || is_offered a name false) && is_confirmed) a
        (mutate (delete a.server_id name) a)
        (λ b.
          mutate-IsOrdered (delete a.server_id name) a
            (with_server_twice (truthy a.server_id) _ _ is_confirmed b) h)
        h
  step-IsOrdered clicked_test a h =
      if-IsOrdered (truthy a.server_id) a (mutate (test a.server_id) a)
        (λ b. mutate-IsOrdered (test a.server_id) a b h) h
  step-IsOrdered clicked_reload a h =
      if-IsOrdered (truthy a.server_id) a (mutate (reload a.server_id) a)
        (λ b. mutate-IsOrdered (reload a.server_id) a b h) h
  step-IsOrdered (clicked_refresh loading) a h =
      unless-IsOrdered loading a (record a { refreshed = a.refreshed ++ a.server_id ∷ [] }) h h
  step-IsOrdered (replied i reply) a h = elim (Option-cases (get_elem? a.waiting i)) [
    | inl e ↦ rw (e, step) h
    | inr (call, e) ↦
        rw (e, step)
          (finish-IsOrdered call reply (record a { waiting = remove_at i a.waiting })
            (h.0, OneOfEach-remove_at kind_of a.waiting i h.1))
  ]

  -- Whatever is chosen, clicked and replied, each request that enables, disables, deletes, tests or reloads names a server,
  -- and of each of these kinds at most one waits for its reply.
  pub run-IsOrdered : (es : List Event) (a : Actions) → IsOrdered a → IsOrdered (run parse a es)
  unfolding run
  run-IsOrdered [] a h = h
  run-IsOrdered (e ∷ es) a h = run-IsOrdered es (step parse a e) (step-IsOrdered e a h)
