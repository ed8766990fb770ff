-- ===== src/Sites/Settings/Tests.antt =====
-- Runs of Sites/Settings.antt, and the theorems about it at concrete inputs.
use ventopanel.Base.{ℕ, ◌≡◌, refl, true, false, Option, none, some, List, [], ◌∷◌, Text, text, All}
use ventopanel.Api.Session.{Browser}
use ventopanel.Api.Fetch.{perform, api_fetch}
use ventopanel.Api.Calls.Sites.{WebhookResponse}
use ventopanel.Sites.Settings.{
  Settings, Event, upsert, add_domain, rollback, typed_key, typed_value, typed_alias, submitted_env,
  submitted_alias, clicked_rollback, replied, handle_upsert_env, handle_add_alias, handle_rollback,
  webhook_url, finish, step, run,
}
use ventopanel.Sites.Requests.{IsNormal, run-IsNormal}
use ventopanel.Sites.Rollbacks.{OneRollback, run-OneRollback}

abbrev visitor : Browser
visitor = record { in_browser = true; token = some (text "t"); location = text "/sites/1" }

abbrev untouched : Settings
untouched = record {
  new_key = [];
  new_value = [];
  adding_env = false;
  visible = [];
  new_alias = [];
  adding_alias = false;
  webhook_token = [];
  regenerating = false;
  restarting = false;
  rolling_back = none;
  show_rollback = false;
  waiting = [];
  sent = [];
  browser = visitor;
}

abbrev reads : Text → Option ℕ
reads body = none

abbrev reads_webhook : Text → Option WebhookResponse
reads_webhook body = none

-- The second rollback is clicked while the first waits.
abbrev events : List Event
events =
    typed_key (text " db ")
    ∷ typed_value (text "x")
    ∷ submitted_env
    ∷ typed_alias (text "WWW.a.com")
    ∷ submitted_alias
    ∷ clicked_rollback (text "abc")
    ∷ clicked_rollback (text "def")
    ∷ replied 1 none
    ∷ []

sends_normalised :
    (run reads reads_webhook (text "1") untouched events).sent
    ≡ upsert (text "DB") (text "x") ∷ add_domain (text "www.a.com") ∷ rollback (text "abc") ∷ []
unfolding run step handle_upsert_env handle_add_alias handle_rollback finish perform api_fetch
sends_normalised = refl

no_webhook_without_token : webhook_url (text "http://a") [] none ≡ []
unfolding webhook_url
no_webhook_without_token = refl

run-IsNormal_example : All IsNormal (run reads reads_webhook (text "1") untouched events).sent
run-IsNormal_example = run-IsNormal reads reads_webhook (text "1") events untouched tt

run-OneRollback_example : OneRollback (run reads reads_webhook (text "1") untouched events)
run-OneRollback_example =
    run-OneRollback reads reads_webhook (text "1") events untouched
      (tt, (tt, (tt, (tt, (tt, (refl, (refl, (tt, tt)))))))) refl
