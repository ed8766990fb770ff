-- ===== src/Security/TwoFactor.antt =====
-- `TwoFactorSection` of frontend/app/(dashboard)/security/page.tsx. A mutation is two steps, from its
-- click to its request and from the reply on, since the section can be used in between.
use ventopanel.Base.{
  ℕ, leb, ◌==◌, if◌then◌else◌, Bool, true, false, not, ◌&&◌, ◌||◌, Option, none, some, List, [],
  ◌∷◌, ◌++◌, Text, keep_if, length, get_elem?, remove_at, take,
}
use ventopanel.Api.Session.{Browser, TokenPayload, get_token_payload}
use ventopanel.Api.Fetch.{Reply, Outcome, ok, threw, perform}
use ventopanel.Api.Calls.Account.{setup_totp}
use ventopanel.Api.Raw.{TokenResponse, enable_totp, disable_totp}

pub data TotpStep : Type 0 where
  idle setup verify disable : TotpStep

abbrev pub same_step : TotpStep → TotpStep → Bool
same_step idle idle = true
same_step setup setup = true
same_step verify verify = true
same_step disable disable = true
same_step _ _ = false

pub record TotpSetup : Type 0 where
  pub secret : Text
  pub url : Text

-- A request that waits for its reply.
pub data Call : Type 0 where
  setup_call : Call
  enable_call disable_call : Text → Call

-- The states of the section, the requests that wait, the oldest first, and the browser. `sent` has
-- every code that was sent.
pub record Section : Type 0 where
  pub step : TotpStep
  pub setup : Option TotpSetup
  pub code : Text
  pub show_secret : Bool
  pub enabled : Bool
  pub waiting : List Call
  pub sent : List Text
  pub browser : Browser

-- `payload?.totp_enabled ?? false`
abbrev pub enabled_of : Option TokenPayload → Bool
enabled_of none = false
enabled_of (some payload) = elim payload.totp_enabled [ none ↦ false | some enabled ↦ enabled ]

-- The section as it is shown first.
unfoldable pub opened : (Text → Option TokenPayload) → Browser → Section
opened decode b = record {
  step = idle;
  setup = none;
  code = [];
  show_secret = false;
  enabled = enabled_of (get_token_payload decode b);
  waiting = [];
  sent = [];
  browser = b;
}

abbrev pub is_setup : Call → Bool
is_setup setup_call = true
is_setup _ = false

abbrev pub is_enable : Call → Bool
is_enable (enable_call _) = true
is_enable _ = false

abbrev pub is_disable : Call → Bool
is_disable (disable_call _) = true
is_disable _ = false

-- `isPending`: a request of that kind waits. Where two of a kind wait, which the key can do, the source
-- follows the later one alone.
abbrev pub any : (Call → Bool) → List Call → Bool
any p [] = false
any p (call ∷ calls) = p call || any p calls

-- `setupMutation.mutate()` of the button, after its `setStep`.
unfoldable pub start_setup : Section → Section
start_setup s = record s { step = setup; waiting = s.waiting ++ setup_call ∷ [] }

unfoldable pub send_enable : Section → Section
send_enable s = record s {
  waiting = s.waiting ++ enable_call s.code ∷ [];
  sent = s.sent ++ s.code ∷ [];
}

unfoldable pub send_disable : Section → Section
send_disable s = record s {
  waiting = s.waiting ++ disable_call s.code ∷ [];
  sent = s.sent ++ s.code ∷ [];
}

-- The handlers `onSuccess` and `onError` of the three mutations. Where the reply of the setup is
-- `undefined`, the section has no setup to show.
abbrev pub setup_done : Outcome (Option TotpSetup) → Section → Section
setup_done (ok shown) s = record s { setup = shown; step = verify }
setup_done (threw e) s = s

abbrev pub enable_done : Outcome (Unit {0}) → Section → Section
enable_done (ok done) s = record s { enabled = true; step = idle; code = []; setup = none }
enable_done (threw e) s = s

abbrev pub disable_done : Outcome (Unit {0}) → Section → Section
disable_done (ok done) s = record s { enabled = false; step = idle; code = [] }
disable_done (threw e) s = s

abbrev pub is_digit : ℕ → Bool
is_digit c = leb b'0' c && leb c b'9'

-- `setCode(e.target.value.replace(/\D/g, ""))`; the field takes six characters.
unfoldable pub type_code : Text → Section → Section
type_code value s = record s { code = keep_if is_digit (take 6 value) }

-- The buttons that lead back from the fields of a code.
unfoldable pub cancel_verify : Section → Section
cancel_verify s = record s { step = idle; code = []; setup = none }

unfoldable pub cancel_disable : Section → Section
cancel_disable s = record s { step = idle; code = [] }

abbrev pub has_setup : Option TotpSetup → Bool
has_setup none = false
has_setup (some shown) = true

-- What the section shows: the fields of `verify` need the setup.
abbrev pub shows_verify : Section → Bool
shows_verify s = same_step s.step verify && has_setup s.setup

abbrev pub shows_disable : Section → Bool
shows_disable s = same_step s.step disable

abbrev pub is_complete : Text → Bool
is_complete code = length code == 6

-- What can happen: clicks and keys, and the reply to one of the requests that wait, none for a
-- request that fails without one.
pub data Event : Type 0 where
  clicked_setup clicked_disable_setup toggled_secret : Event
  typed : Text → Event
  clicked_enable pressed_enable clicked_disable pressed_disable : Event
  cancelled_verify cancelled_disable : Event
  replied : ℕ → Option Reply → Event

module _ (parse_setup : Text → Option TotpSetup) (parse_token : Text → Option TokenResponse) where
  -- The rest of a call, once its reply came; what was sent does not matter any more.
  unfoldable pub finish : Call → Option Reply → Section → Section
  finish setup_call reply s =
      let (outcome, browser) = perform parse_setup (λ request. reply) setup_totp s.browser in
      setup_done outcome (record s { browser = browser })
  finish (enable_call code) reply s =
      let (outcome, browser) = enable_totp parse_token (λ request. reply) code s.browser in
      enable_done outcome (record s { browser = browser })
  finish (disable_call code) reply s =
      let (outcome, browser) = disable_totp parse_token (λ request. reply) code s.browser in
      disable_done outcome (record s { browser = browser })

  -- An event that the section does not offer changes nothing.
  unfoldable pub step : Section → Event → Section
  step s clicked_setup =
      if same_step s.step idle && not s.enabled && not (any is_setup s.waiting)
      then start_setup s
      else s
  step s clicked_disable_setup =
      if same_step s.step idle && s.enabled then record s { step = disable } else s
  step s toggled_secret = if shows_verify s then record s { show_secret = not s.show_secret } else s
  step s (typed value) = if shows_verify s || shows_disable s then type_code value s else s
  step s clicked_enable =
      if shows_verify s && is_complete s.code && not (any is_enable s.waiting)
      then send_enable s
      else s
  step s pressed_enable = if shows_verify s && is_complete s.code then send_enable s else s
  step s clicked_disable =
      if shows_disable s && is_complete s.code && not (any is_disable s.waiting)
      then send_disable s
      else s
  step s pressed_disable = if shows_disable s && is_complete s.code then send_disable s else s
  step s cancelled_verify = if shows_verify s then cancel_verify s else s
  step s cancelled_disable = if shows_disable s then cancel_disable s else s
  step s (replied i reply) = elim (get_elem? s.waiting i) [
    | none ↦ s
    | some call ↦ finish call reply (record s { waiting = remove_at i s.waiting })
  ]

  unfoldable pub run : Section → List Event → Section
  run s [] = s
  run s (e ∷ es) = run (step s e) es
