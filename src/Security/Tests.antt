-- ===== src/Security/Tests.antt =====
-- Runs of the definitions for frontend/app/(dashboard)/security/page.tsx, and the theorems at concrete inputs.
use ventopanel.Base.{◌≡◌, refl, true, false, Option, none, some, List, [], ◌∷◌, Text, text}
use ventopanel.Api.Session.{Browser}
use ventopanel.Api.Fetch.{Reply, perform, api_fetch, receive}
use ventopanel.Api.Calls.Account.{setup_totp, create_api_token}
use ventopanel.Api.Raw.{TokenResponse}
use ventopanel.Security.TwoFactor.{
  Section, TotpSetup, idle, setup, finish, clicked_setup, pressed_enable, typed, replied,
  start_setup, type_code, send_enable, Event, step, run,
}
use ventopanel.Security.Codes.{CodesHold, run-CodesHold}
use ventopanel.Security.Replies.{run-setup_failed}
use ventopanel.Security.Tokens.{
  CreatedToken, Tokens, TokenCall, create, revoke, TokenEvent, typed_name, clicked_create,
  pressed_enter, dismissed, chose_revoke, confirmed, create_token,
}
use ventopanel.Security.Tokens

abbrev visitor : Browser
visitor = record { in_browser = true; token = some (text "t"); location = text "/security" }

abbrev plain : Section
plain = record {
  step = idle;
  setup = none;
  code = [];
  show_secret = false;
  enabled = false;
  waiting = [];
  sent = [];
  browser = visitor;
}

abbrev gives_secret : Text → Option TotpSetup
gives_secret body = some (record { secret = text "ABCD"; url = [] })

abbrev gives_token : Text → Option TokenResponse
gives_token body = some (record { token = some (text "a.b.c") })

abbrev fine : Reply
fine = record { status = 200; body = text "{}" }

abbrev broken : Reply
broken = record { status = 500; body = [] }

-- The first factor of the events is a setup; the code is typed with a blank, and Enter is hit twice.
abbrev enabling : List Event
enabling =
    clicked_setup
    ∷ replied 0 (some fine)
    ∷ typed (text "123 456")
    ∷ typed (text "123456")
    ∷ pressed_enable
    ∷ pressed_enable
    ∷ []

sends_twice :
    (run gives_secret gives_token plain enabling).sent ≡ text "123456" ∷ text "123456" ∷ []
unfolding run step start_setup finish type_code send_enable perform api_fetch receive setup_totp
sends_twice = refl

run-CodesHold_example : CodesHold (run gives_secret gives_token plain enabling)
run-CodesHold_example = run-CodesHold gives_secret gives_token enabling plain (tt, tt)

run-setup_failed_example :
    let dead = run gives_secret gives_token plain (clicked_setup ∷ replied 0 (some broken) ∷ []) in
    (dead.step ≡ setup)
    × (run gives_secret gives_token dead (clicked_setup ∷ typed (text "1") ∷ []) ≡ dead)
run-setup_failed_example =
    run-setup_failed gives_secret gives_token plain (some broken)
      (clicked_setup ∷ typed (text "1") ∷ []) refl refl refl refl

abbrev no_tokens : Tokens
no_tokens = record {
  new_name = [];
  created = none;
  copied = none;
  revoke_target = none;
  waiting = [];
  sent = [];
  browser = visitor;
}

abbrev gives_created : Text → Option CreatedToken
gives_created body = some (record { id = text "1"; name = text "ci"; token = text "secret" })

-- Enter is hit twice before the reply comes.
abbrev creating_twice : List TokenEvent
creating_twice =
    typed_name (text " ci ")
    ∷ pressed_enter
    ∷ pressed_enter
    ∷ Tokens.replied 0 (some fine)
    ∷ chose_revoke (text "1")
    ∷ confirmed
    ∷ []

asks_for_two :
    (Tokens.run gives_created no_tokens creating_twice).sent
    ≡ create (text "ci") ∷ create (text "ci") ∷ revoke (text "1") ∷ []
unfolding Tokens.run Tokens.step create_token Tokens.finish_call perform api_fetch receive
    create_api_token
asks_for_two = refl
