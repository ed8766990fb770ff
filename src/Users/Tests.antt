-- ===== src/Users/Tests.antt =====
-- Runs of the definitions for frontend/app/(dashboard)/users/page.tsx, and the theorems at concrete inputs.
use ventopanel.Base.{
  ℕ, ◌≡◌, refl, true, false, Option, none, some, List, [], ◌∷◌, Text, text, arith,
}
use ventopanel.Api.Session.{Browser, TokenPayload, get_role, get_token_payload, get_token}
use ventopanel.Access.{use_auth}
use ventopanel.Users.Page.{
  Team, Event, invite, delete, toggled_invite, typed_email, typed_password, clicked_invite,
  clicked_delete, confirmed, closed, step, run,
}
use ventopanel.Users.Invariant.{IsOrderly, run-IsOrderly}
use ventopanel.Users.Visitors.{run-IsIdle}

abbrev visitor : Browser
visitor = record { in_browser = true; token = some (text "a.b.c"); location = text "/users" }

abbrev untouched : Team
untouched = record {
  show_invite = false;
  email = [];
  password = [];
  role = text "viewer";
  confirm = none;
  waiting = [];
  sent = [];
  browser = visitor;
  mounted = visitor;
}

abbrev payload_of : Text → TokenPayload
payload_of role = record {
  uid = none;
  tid = none;
  role = some role;
  email = none;
  totp_enabled = none;
  exp = none;
}

abbrev admin : Text → Option TokenPayload
admin part = some (payload_of (text "admin"))

abbrev viewer : Text → Option TokenPayload
viewer part = some (payload_of (text "viewer"))

abbrev reads : Text → Option ℕ
reads body = none

-- Both buttons are clicked twice before a reply comes.
abbrev clicks : List Event
clicks =
    toggled_invite
    ∷ typed_email (text "a@b.c")
    ∷ clicked_invite
    ∷ typed_password (text "secret")
    ∷ clicked_invite
    ∷ clicked_invite
    ∷ clicked_delete (text "7")
    ∷ confirmed
    ∷ confirmed
    ∷ closed
    ∷ []

sends_each_once :
    (run reads admin untouched clicks).sent
    ≡ invite (text "a@b.c") (text "secret") (text "viewer") ∷ delete (text "7") ∷ []
unfolding run step use_auth get_role get_token_payload get_token
sends_each_once = refl

run-IsOrderly_example : IsOrderly (run reads admin untouched clicks)
run-IsOrderly_example = run-IsOrderly reads admin clicks untouched (omega arith)

viewer_is_no_admin : (use_auth viewer visitor).is_admin ≡ false
unfolding use_auth get_role get_token_payload get_token
viewer_is_no_admin = refl

run-IsIdle_example : (run reads viewer untouched clicks).sent ≡ []
run-IsIdle_example = run-IsIdle reads viewer clicks untouched (viewer_is_no_admin, refl, refl)
