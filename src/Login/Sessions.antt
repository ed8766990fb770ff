-- ===== src/Login/Sessions.antt =====
-- When the page of Login/Page.antt leaves for the dashboard, and what a refused code does.
use ventopanel.Base.{
  trim, ◌≡◌, ◌≢◌, refl, subst, ap, sym, ◌∙◌, true, Option, none, some, Option-cases, Bool-cases,
  inl, inr, List, [], ◌∷◌, Text, text, truthy, arith,
}
use ventopanel.Api.Session.{Browser, set_token, clear_token}
use ventopanel.Api.Fetch.{
  Reply, Outcome, ok, threw, Server, request_of, logged_out, api_fetch, receive, ApiCall, perform,
}
use ventopanel.Api.Fetch.{api_error, finished}
use ventopanel.Api.Fetch.Outcomes.{api_fetch-replied, receive_of_denied}
use ventopanel.Api.Raw.{LoginResponse, LoginResult, mfa_required, logged_in, login}
use ventopanel.Api.Calls.Account.{verify_mfa}
use ventopanel.Login.Page.{
  LoginPage, handle_login, handle_mfa, handle_register, login_done, verified, can_verify, entered,
  type_mfa_code, back, choose_tab, Event, step, run, typed_email, typed_password, typed_code,
  typed_account, submitted_login, submitted_mfa, submitted_register, clicked_back, clicked_tab,
}

-- A window that is at the dashboard has a token.
abbrev pub HomeHasToken : Browser → Type 0
HomeHasToken b = (b.in_browser ≡ true) × (b.location ≡ text "/" → b.token ≢ none)

logged_out-HomeHasToken : (b : Browser) → HomeHasToken b → HomeHasToken (logged_out b)
unfolding logged_out clear_token
logged_out-HomeHasToken b h = ground arith

entered-HomeHasToken :
    (page : LoginPage) (response : LoginResponse)
    → HomeHasToken page.browser
    → HomeHasToken (entered page response).browser
unfolding set_token
entered-HomeHasToken page response h = (h.0, λ e k. cc)

module _ {A : Type 0} (parse : Text → Option A) where
  receive-HomeHasToken :
      (reply : Reply) (b : Browser) → HomeHasToken b → HomeHasToken (receive parse reply b).1
  unfolding receive
  receive-HomeHasToken reply b h = ground (arith, logged_out-HomeHasToken b h)

  api_fetch-HomeHasToken :
      (server : Server) (path : Text) (o : _) (b : Browser)
      → HomeHasToken b
      → HomeHasToken (api_fetch parse server path o b).1
  unfolding api_fetch
  api_fetch-HomeHasToken server path o b h = elim (Option-cases (server (request_of path o b))) [
    | inl e ↦ rw (e, api_fetch) h
    | inr (reply, e) ↦ rw (e, api_fetch) (receive-HomeHasToken reply b h)
  ]

  perform-browser :
      {B : Type 0} (server : Server) (call : ApiCall A B) (b : Browser)
      → (perform parse server call b).1 ≡ (api_fetch parse server call.path call.options b).1
  unfolding perform
  perform-browser server call b = ground arith

  perform-HomeHasToken :
      {B : Type 0} (server : Server) (call : ApiCall A B) (b : Browser)
      → HomeHasToken b
      → HomeHasToken (perform parse server call b).1
  perform-HomeHasToken server call b h =
      subst HomeHasToken (sym (perform-browser server call b))
        (api_fetch-HomeHasToken server call.path call.options b h)

verified-HomeHasToken :
    (page : LoginPage) (outcome : Outcome (Option LoginResponse))
    → HomeHasToken page.browser
    → HomeHasToken (verified page outcome).browser
verified-HomeHasToken page (threw e) h = h
verified-HomeHasToken page (ok none) h = h
verified-HomeHasToken page (ok (some response)) h = entered-HomeHasToken page response h

HomePage : LoginPage → Type 0
HomePage page = HomeHasToken page.browser

handle_mfa-HomePage :
    (parse : Text → Option LoginResponse) (server : Server) (page : LoginPage)
    → HomePage page
    → HomePage (handle_mfa parse server page)
unfolding HomePage handle_mfa
handle_mfa-HomePage parse server page h = elim (Option-cases page.mfa_session) [
  | inl e ↦ rw (e, handle_mfa) h
  | inr (session, e) ↦ elim (Bool-cases (truthy session)) [
    | inl t ↦
        let call : ApiCall LoginResponse (Option LoginResponse) =
          verify_mfa session page.mfa_code in
        let asked : LoginPage = record page {
          error = none;
          browser = (perform parse server call page.browser).1;
        } in
        rw (e, t, handle_mfa)
          (verified-HomeHasToken asked (perform parse server call page.browser).0
            (perform-HomeHasToken parse server call page.browser h))
    | inr f ↦ rw (e, f, handle_mfa) h
  ]
]

login_done-HomePage :
    (page : LoginPage) (outcome : Outcome LoginResult)
    → HomePage page
    → HomePage (login_done page outcome)
unfolding HomePage
login_done-HomePage page (threw e) h = h
login_done-HomePage page (ok (mfa_required session)) h = h
login_done-HomePage page (ok (logged_in response)) h = entered-HomeHasToken page response h

handle_login-HomePage :
    (parse : Text → Option LoginResult) (error_of : Text → Option Text) (server : Server)
    (page : LoginPage)
    → HomePage page
    → HomePage (handle_login parse error_of server page)
unfolding HomePage handle_login
handle_login-HomePage parse error_of server page h =
    login_done-HomePage (record page { error = none })
      (login parse error_of server (trim page.email) page.password) h

handle_register-HomePage :
    (parse : Text → Option LoginResponse) (error_of : Text → Option Text) (server : Server)
    (page : LoginPage)
    → HomePage page
    → HomePage (handle_register parse error_of server page)
unfolding HomePage handle_register
handle_register-HomePage parse error_of server page h = ground arith

module _ (parse_login : Text → Option LoginResult) (parse_mfa : Text → Option LoginResponse)
    (error_of : Text → Option Text) where
  step-HomePage :
      (page : LoginPage) (e : Event)
      → HomePage page
      → HomePage (step parse_login parse_mfa error_of page e)
  unfolding step HomePage type_mfa_code back choose_tab
  step-HomePage page (typed_email value) h = h
  step-HomePage page (typed_password value) h = h
  step-HomePage page (typed_code value) h = h
  step-HomePage page (typed_account email password team) h = h
  step-HomePage page (submitted_login server) h =
      handle_login-HomePage parse_login error_of server page h
  step-HomePage page (submitted_mfa server) h = elim (Bool-cases (can_verify page)) [
    | inl c ↦ rw c (handle_mfa-HomePage parse_mfa server page h)
    | inr c ↦ rw c h
  ]
  step-HomePage page (submitted_register server) h =
      handle_register-HomePage parse_mfa error_of server page h
  step-HomePage page clicked_back h = h
  step-HomePage page (clicked_tab tab) h = h

  -- Whatever is typed, clicked and replied on the login page, it leaves for the dashboard only with a
  -- token in the browser.
  pub run-HomeHasToken :
      (es : List Event) (page : LoginPage)
      → HomeHasToken page.browser
      → HomeHasToken (run parse_login parse_mfa error_of page es).browser
  unfolding run HomePage
  run-HomeHasToken [] page h = h
  run-HomeHasToken (e ∷ es) page h =
      run-HomeHasToken es (step parse_login parse_mfa error_of page e) (step-HomePage page e h)

perform-denied :
    {A B : Type 0} (parse : Text → Option A) (server : Server) (call : ApiCall A B) (b : Browser)
    (reply : Reply)
    → server (request_of call.path call.options b) ≡ some reply
    → reply.status ≡ 401
    → perform parse server call b ≡ (threw (api_error 401 (text "Unauthorized")), logged_out b)
unfolding perform
perform-denied {A = A} {B = B} parse server call b reply r d =
    let denied_fetch : api_fetch parse server call.path call.options b
        ≡ (threw (api_error 401 (text "Unauthorized")), logged_out b) =
      api_fetch-replied parse server call.path call.options b reply r
      ∙ receive_of_denied parse server reply b (inl d)
      ∙ ap (λ status. (threw (api_error status (text "Unauthorized")), logged_out b)) d in
    ap
      (λ (fetched : Outcome (Option A) × Browser). elim fetched.0 as (λ o. Outcome B × Browser) [
        | ok v ↦ (finished (call.finish v), fetched.1)
        | threw e ↦ (threw e, fetched.1)
      ])
      denied_fetch

-- A code that the server refuses with 401 sends the window to the login page anew, with the message
-- of the client in place of the one of the reply.
handle_mfa-denied :
    (parse : Text → Option LoginResponse) (server : Server) (page : LoginPage) (session : Text)
    (reply : Reply)
    → page.browser.in_browser ≡ true
    → page.mfa_session ≡ some session
    → truthy session ≡ true
    → server (
        request_of
          (verify_mfa {R = LoginResponse} session page.mfa_code).path
          (verify_mfa {R = LoginResponse} session page.mfa_code).options
          page.browser)
      ≡ some reply
    → reply.status ≡ 401
    → ((handle_mfa parse server page).browser.location ≡ text "/login")
      × ((handle_mfa parse server page).error ≡ some (api_error 401 (text "Unauthorized")))
unfolding handle_mfa logged_out
handle_mfa-denied parse server page session reply b m t r d =
    let refused =
      perform-denied parse server (verify_mfa session page.mfa_code) page.browser reply r d in
    rw (m, t, refused, handle_mfa) (rw (b, logged_out) (refl, refl))
