-- ===== src/Sites/Actions/Tests.antt =====
-- Runs of Sites/Actions.antt.
use ventopanel.Base.{ℕ, ◌≡◌, refl, true, false, Option, none, some, List, [], ◌∷◌, Text, text}
use ventopanel.Api.Session.{Browser, TokenPayload, get_role, get_token_payload, get_token}
use ventopanel.Api.Fetch.{perform, api_fetch, receive}
use ventopanel.Api.Calls.Sites.{delete_site}
use ventopanel.Access.{use_auth}
use ventopanel.Sites.Actions.{
  Head, Event, deploy, delete, clicked_deploy, clicked_delete, confirmed, cancelled, finish, step,
  run,
}

abbrev admin : Text → Option TokenPayload
admin part = some (record {
  uid = none;
  tid = none;
  role = some (text "admin");
  email = none;
  totp_enabled = none;
  exp = none;
})

abbrev reads : Text → Option ℕ
reads body = some 0

abbrev visitor : Browser
visitor = record { in_browser = true; token = some (text "a.b.c"); location = text "/sites/1" }

abbrev untouched : Head
untouched = record { delete_open = false; waiting = []; browser = visitor; mounted = visitor }

-- The deletion is confirmed twice, and cannot be cancelled any more.
abbrev deleting : List Event
deleting = clicked_deploy ∷ clicked_delete ∷ confirmed ∷ confirmed ∷ cancelled ∷ []

deletes_once : (run reads admin (text "1") untouched deleting).waiting ≡ deploy ∷ delete ∷ []
unfolding run step use_auth get_role get_token_payload get_token
deletes_once = refl

leaves_for_the_list :
    (finish reads admin
      (text "1")
      delete
      (some (record { status = 200; body = text "{}" }))
      untouched).browser.location
    ≡ text "/sites"
unfolding finish perform api_fetch receive delete_site
leaves_for_the_list = refl
