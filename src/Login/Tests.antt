-- ===== src/Login/Tests.antt =====
-- Runs of the definitions for frontend/app/login/page.tsx, and the theorems at concrete inputs.
use ventopanel.Base.{
  ℕ, ◌+◌, trim, ◌≡◌, refl, true, false, Option, none, some, List, [], ◌∷◌, Text, text, arith,
}
use ventopanel.Api.Session.{TokenPayload}
use ventopanel.Api.Fetch.{Server}
use ventopanel.Api.Raw.{LoginResponse, LoginResult, mfa_required, api_post, login}
use ventopanel.Login.Page.{
  LoginPage, login_tab, handle_login, Event, typed_email, typed_code, submitted_login,
  submitted_mfa, step, run,
}
use ventopanel.Login.Sessions.{HomeHasToken, run-HomeHasToken}

abbrev fresh : LoginPage
fresh = record {
  tab = login_tab;
  email = [];
  password = [];
  mfa_session = none;
  mfa_code = [];
  reg_email = [];
  reg_password = [];
  reg_team_id = [];
  loading = false;
  error = none;
  success = [];
  browser = record { in_browser = true; token = none; location = text "/login" };
}

trimmed : trim (text "  a b ") ≡ text "a b"
trimmed = refl

-- A server that asks for a second factor and refuses every code, and what the client reads of it.
abbrev asks : Text → Option LoginResult
asks body = some (mfa_required (text "s1"))

abbrev reads : Text → Option LoginResponse
reads body = none

abbrev no_error : Text → Option Text
no_error body = none

abbrev welcoming : Server
welcoming request = some (record { status = 200; body = [] })

abbrev refusing : Server
refusing request = some (record { status = 401; body = text "invalid 2FA code" })

abbrev attempt : List Event
attempt =
    typed_email (text " a@b.c ")
    ∷ submitted_login welcoming
    ∷ typed_code (text "12-34-56")
    ∷ submitted_mfa refusing
    ∷ []

asks_for_code :
    (run asks reads no_error fresh
      (typed_email (text "a@b.c") ∷ submitted_login welcoming ∷ [])).mfa_session
    ≡ some (text "s1")
unfolding run step handle_login login api_post
asks_for_code = refl

run-HomeHasToken_example : HomeHasToken (run asks reads no_error fresh attempt).browser
run-HomeHasToken_example =
    run-HomeHasToken asks reads no_error attempt fresh (refl, λ e. absurd (ground arith))

-- Every token that can be read is in force for a second more.
abbrev in_force_at : ℕ → Text → Option TokenPayload
in_force_at seconds part = some (record {
  uid = none;
  tid = none;
  role = some (text "admin");
  email = none;
  totp_enabled = none;
  exp = some (seconds + 1);
})
