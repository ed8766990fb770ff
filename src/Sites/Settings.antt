-- ===== src/Sites/Settings.antt =====
-- The environment variables, domains, webhook, rollback and restart of frontend/app/(dashboard)/sites/[id]/page.tsx. A handler is
-- two steps: up to the request of its `await`, and from the reply on. What the query library fetches
-- again is left out.
mod Tests
use ventopanel.Base.{
  ℕ, ◌≡◌, Bool, true, false, not, ◌&&◌, ◌||◌, if◌then◌else◌, Option, none, some, List, [], ◌∷◌,
  ◌++◌, Text, text, text_eq, truthy, trim, to_upper, to_lower, keep_if, includes, get_elem?,
  remove_at,
}
use ventopanel.Api.Session.{Browser}
use ventopanel.Api.Fetch.{Reply, Outcome, ok, threw, perform}
use ventopanel.Api.Fetch.Performed.{replying}
use ventopanel.Api.Calls.Sites.{
  WebhookResponse, upsert_env_var, delete_env_var, add_site_domain, remove_site_domain,
  regenerate_webhook_token, rollback_to_commit, restart_container,
}

pub data SiteCall : Type 0 where
  upsert : Text → Text → SiteCall
  delete_env add_domain remove_domain rollback : Text → SiteCall
  regenerate restart : SiteCall

-- `visible` has the keys whose values are shown. `waiting` has the requests that wait, the oldest
-- first, and `sent` all that were sent.
pub record Settings : Type 0 where
  pub new_key : Text
  pub new_value : Text
  pub adding_env : Bool
  pub visible : List Text
  pub new_alias : Text
  pub adding_alias : Bool
  pub webhook_token : Text
  pub regenerating : Bool
  pub restarting : Bool
  pub rolling_back : Option Text
  pub show_rollback : Bool
  pub waiting : List SiteCall
  pub sent : List SiteCall
  pub browser : Browser

abbrev pub send : SiteCall → Settings → Settings
send call s = record s { waiting = s.waiting ++ call ∷ []; sent = s.sent ++ call ∷ [] }

-- `handleUpsertEnv` up to its request.
unfoldable pub handle_upsert_env : Settings → Settings
handle_upsert_env s =
    let key = to_upper (trim s.new_key) in if truthy key then send (upsert key s.new_value) s else s

-- `handleAddAlias` up to its request.
unfoldable pub handle_add_alias : Settings → Settings
handle_add_alias s =
    let domain = to_lower (trim s.new_alias) in
    if truthy domain then send (add_domain domain) s else s

-- `toggleVisible` on the set of keys.
unfoldable pub toggle_visible : List Text → Text → List Text
toggle_visible visible key =
    if includes visible key then keep_if (λ k. not (text_eq k key)) visible else visible ++ key ∷ []

-- What the list shows of a variable.
abbrev pub shown_value : List Text → Text → Text → Text
shown_value visible key value = if includes visible key then value else text "••••••••"

abbrev pub is_rolling : Option Text → Bool
is_rolling none = false
is_rolling (some hash) = truthy hash

-- `handleRollback` up to its request.
unfoldable pub handle_rollback : Text → Settings → Settings
handle_rollback hash s =
    if is_rolling s.rolling_back
    then s
    else send (rollback hash) (record s { rolling_back = some hash })

-- `currentToken` and `webhookURL`, for the token of the site that was fetched.
abbrev pub current_token : Text → Option Text → Text
current_token webhook_token site_token =
    if truthy webhook_token
    then webhook_token
    else (elim site_token [ none ↦ [] | some token ↦ token ])

unfoldable pub webhook_url : Text → Text → Option Text → Text
webhook_url api_base webhook_token site_token =
    let token = current_token webhook_token site_token in
    if truthy token then api_base ++ text "/api/v1/webhook/" ++ token else []

-- The rest of each handler.
abbrev pub upsert_done : Outcome (Unit {0}) → Settings → Settings
upsert_done (ok done) s = record s { new_key = []; new_value = []; adding_env = false }
upsert_done (threw e) s = s

abbrev pub alias_done : Outcome (Unit {0}) → Settings → Settings
alias_done (ok done) s = record s { new_alias = []; adding_alias = false }
alias_done (threw e) s = s

abbrev pub rollback_done : Outcome (Unit {0}) → Settings → Settings
rollback_done (ok done) s = record s { show_rollback = false; rolling_back = none }
rollback_done (threw e) s = record s { rolling_back = none }

abbrev pub regenerate_done : Outcome Text → Settings → Settings
regenerate_done (ok token) s = record s { webhook_token = token; regenerating = false }
regenerate_done (threw e) s = record s { regenerating = false }

pub data Event : Type 0 where
  typed_key typed_value typed_alias : Text → Event
  toggled_env_form closed_env_form toggled_alias_form closed_alias_form toggled_rollback : Event
  submitted_env submitted_alias : Event
  clicked_delete_env clicked_visible clicked_remove_alias clicked_rollback : Text → Event
  clicked_regenerate clicked_restart : Event
  replied : ℕ → Option Reply → Event

-- `parse` reads a reply that is not used, and `parse_webhook` the one with a token.
module _ {R : Type 0} (parse : Text → Option R) (parse_webhook : Text → Option WebhookResponse)
    (id : Text) where
  unfoldable pub finish : SiteCall → Option Reply → Settings → Settings
  finish (upsert key value) reply s =
      let (outcome, browser) =
        perform parse (replying reply) (upsert_env_var id key value) s.browser in
      upsert_done outcome (record s { browser = browser })
  finish (delete_env key) reply s = record s {
    browser = (perform parse (replying reply) (delete_env_var id key) s.browser).1;
  }
  finish (add_domain domain) reply s =
      let (outcome, browser) =
        perform parse (replying reply) (add_site_domain id domain) s.browser in
      alias_done outcome (record s { browser = browser })
  finish (remove_domain domain) reply s = record s {
    browser = (perform parse (replying reply) (remove_site_domain id domain) s.browser).1;
  }
  finish (rollback hash) reply s =
      let (outcome, browser) =
        perform parse (replying reply) (rollback_to_commit id hash) s.browser in
      rollback_done outcome (record s { browser = browser })
  finish regenerate reply s =
      let (outcome, browser) =
        perform parse_webhook (replying reply) (regenerate_webhook_token id) s.browser in
      regenerate_done outcome (record s { browser = browser })
  finish restart reply s = record s {
    browser = (perform parse (replying reply) (restart_container id) s.browser).1;
    restarting = false;
  }

  -- The first field turns what is typed into capitals.
  unfoldable pub step : Settings → Event → Settings
  step s (typed_key key) = record s { new_key = to_upper key }
  step s (typed_value value) = record s { new_value = value }
  step s (typed_alias domain) = record s { new_alias = domain }
  step s toggled_env_form = record s { adding_env = not s.adding_env }
  step s closed_env_form = record s { adding_env = false }
  step s toggled_alias_form = record s { adding_alias = not s.adding_alias }
  step s closed_alias_form = record s { adding_alias = false }
  step s toggled_rollback = record s { show_rollback = not s.show_rollback }
  step s submitted_env = handle_upsert_env s
  step s submitted_alias = handle_add_alias s
  step s (clicked_delete_env key) = send (delete_env key) s
  step s (clicked_visible key) = record s { visible = toggle_visible s.visible key }
  step s (clicked_remove_alias domain) = send (remove_domain domain) s
  step s (clicked_rollback hash) = handle_rollback hash s
  step s clicked_regenerate = send regenerate (record s { regenerating = true })
  step s clicked_restart = if s.restarting then s else send restart (record s { restarting = true })
  step s (replied i reply) = elim (get_elem? s.waiting i) [
    | none ↦ s
    | some call ↦ finish call reply (record s { waiting = remove_at i s.waiting })
  ]

  unfoldable pub run : Settings → List Event → Settings
  run s [] = s
  run s (e ∷ es) = run (step s e) es
