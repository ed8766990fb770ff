-- ===== src/Login/Page.antt =====
-- The handlers of frontend/app/login/page.tsx. A handler is one step from a click to the end of its
-- `finally`; the reply of the server is the parameter `server`, as in Api/Fetch.antt.
use ventopanel.Base.{
  trim, ℕ, ◌==◌, leb, ◌&&◌, if◌then◌else◌, Bool, false, not, Option, none, some, List, [], ◌∷◌,
  Text, text, truthy, keep_if, length,
}
use ventopanel.Api.Session.{Browser, set_token}
use ventopanel.Api.Fetch.{Error, type_error, Outcome, ok, threw, Server, perform}
use ventopanel.Api.Raw.{LoginResponse, LoginResult, logged_in, mfa_required, login, register_user}
use ventopanel.Api.Calls.Account.{verify_mfa}

pub data Tab : Type 0 where
  login_tab register_tab : Tab

-- The states of the page that its handlers read or write, and the browser. `error` is the error whose
-- message is shown, none where the state is the empty text.
pub record LoginPage : Type 0 where
  pub tab : Tab
  pub email : Text
  pub password : Text
  pub mfa_session : Option Text
  pub mfa_code : Text
  pub reg_email : Text
  pub reg_password : Text
  pub reg_team_id : Text
  pub loading : Bool
  pub error : Option Error
  pub success : Text
  pub browser : Browser

-- `router.push("/")` of the model's browser.
abbrev pub push_home : Browser → Browser
push_home b = record b { location = text "/" }

abbrev pub failed : Error → LoginPage → LoginPage
failed e page = record page { error = some e; loading = false }

abbrev pub entered : LoginPage → LoginResponse → LoginPage
entered page response = record page {
  browser = push_home (set_token response.token page.browser);
  loading = false;
}

-- What `handleLogin` does with what its `await` gives.
abbrev pub login_done : LoginPage → Outcome LoginResult → LoginPage
login_done asked (threw e) = failed e asked
login_done asked (ok (mfa_required session)) = record asked {
  mfa_session = some session;
  loading = false;
}
login_done asked (ok (logged_in response)) = entered asked response

-- `setToken(res.token)` throws where the call gives `undefined`.
abbrev pub verified : LoginPage → Outcome (Option LoginResponse) → LoginPage
verified asked (threw e) = failed e asked
verified asked (ok none) = failed type_error asked
verified asked (ok (some response)) = entered asked response

module _ (parse : Text → Option LoginResult) (error_of : Text → Option Text) (server : Server) where
  unfoldable pub handle_login : LoginPage → LoginPage
  handle_login page =
      login_done (record page { error = none })
        (login parse error_of server (trim page.email) page.password)

module _ (parse : Text → Option LoginResponse) (server : Server) where
  -- An `mfa_session` that is the empty text counts as none.
  unfoldable pub handle_mfa : LoginPage → LoginPage
  handle_mfa page = elim page.mfa_session [
    | none ↦ page
    | some session ↦
        if truthy session
        then (let (outcome, browser) =
              perform parse server (verify_mfa session page.mfa_code) page.browser in
            verified (record page { error = none; browser = browser }) outcome)
        else page
  ]

module _ {A : Type 0} (parse : Text → Option A) (error_of : Text → Option Text)
    (server : Server) where
  unfoldable pub handle_register : LoginPage → LoginPage
  handle_register page =
      let asked = record page { error = none; success = [] } in
      elim (register_user parse error_of server (trim page.reg_email) page.reg_password
        (trim page.reg_team_id)) [
          | threw e ↦ failed e asked
          | ok a ↦ record asked {
            success = text "Account created. You can now log in.";
            tab = login_tab;
            email = trim page.reg_email;
            loading = false;
          }
        ]

abbrev pub is_digit : ℕ → Bool
is_digit c = leb b'0' c && leb c b'9'

-- `e.target.value.replace(/\D/g, "")`
unfoldable pub type_mfa_code : Text → LoginPage → LoginPage
type_mfa_code value page = record page { mfa_code = keep_if is_digit value }

abbrev pub can_verify : LoginPage → Bool
can_verify page = not page.loading && (length page.mfa_code == 6)

-- The button that leads back from the second factor.
unfoldable pub back : LoginPage → LoginPage
back page = record page { mfa_session = none; mfa_code = []; error = none }

unfoldable pub choose_tab : Tab → LoginPage → LoginPage
choose_tab tab page = record page { tab = tab; error = none; success = [] }

-- What can happen on the page, with the server that replies where one is asked.
pub data Event : Type 0 where
  typed_email typed_password typed_code : Text → Event
  typed_account : Text → Text → Text → Event
  submitted_login submitted_mfa submitted_register : Server → Event
  clicked_back : Event
  clicked_tab : Tab → Event

module _ (parse_login : Text → Option LoginResult) (parse_mfa : Text → Option LoginResponse)
    (error_of : Text → Option Text) where
  unfoldable pub step : LoginPage → Event → LoginPage
  step page (typed_email value) = record page { email = value }
  step page (typed_password value) = record page { password = value }
  step page (typed_code value) = type_mfa_code value page
  step page (typed_account email password team) = record page {
    reg_email = email;
    reg_password = password;
    reg_team_id = team;
  }
  step page (submitted_login server) = handle_login parse_login error_of server page
  step page (submitted_mfa server) =
      if can_verify page then handle_mfa parse_mfa server page else page
  step page (submitted_register server) = handle_register parse_mfa error_of server page
  step page clicked_back = back page
  step page (clicked_tab tab) = choose_tab tab page

  unfoldable pub run : LoginPage → List Event → LoginPage
  run page [] = page
  run page (e ∷ es) = run (step page e) es
