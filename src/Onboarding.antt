-- ===== src/Onboarding.antt =====
-- frontend/components/onboarding-wizard.tsx: the steps of the wizard for the first server. A handler is
-- one step from the click to the end of its `finally`.
pub mod Steps
mod Tests
use ventopanel.Base.{
  if◌then◌else◌, Bool, true, false, not, ◌&&◌, ◌||◌, Option, none, some, List, [], ◌∷◌, Text, text,
  truthy, trim,
}

pub data Step : Type 0 where
  welcome server connect done : Step

pub data ConnResult : Type 0 where
  conn_ok conn_fail : ConnResult

-- `stored` is the entry `vp_onboarding_done` of the local storage, `dismissed` that `onDone` was called.
pub record Wizard : Type 0 where
  pub step : Step
  pub busy : Bool
  pub server_id : Option Text
  pub name : Text
  pub host : Text
  pub conn_result : Option ConnResult
  pub error : Text
  pub stored : Option Text
  pub dismissed : Bool

abbrev pub started : Wizard
started = record {
  step = welcome;
  busy = false;
  server_id = none;
  name = [];
  host = [];
  conn_result = none;
  error = [];
  stored = none;
  dismissed = false;
}

-- `isOnboardingDone` in a browser.
unfoldable pub is_onboarding_done : Wizard → Bool
is_onboarding_done w = elim w.stored [ none ↦ false | some entry ↦ truthy entry ]

-- `dismiss`
unfoldable pub dismiss : Wizard → Wizard
dismiss w = record w { stored = some (text "1"); dismissed = true }

-- `handleAddServer`; `created` is the id of the server, or none if `createServer` throws with `message`.
unfoldable pub handle_add_server : Option Text → Text → Wizard → Wizard
handle_add_server created message w =
    if not (truthy (trim w.name)) || not (truthy (trim w.host))
    then record w { error = text "Name and host are required" }
    else elim created [
      | some id ↦ record w { server_id = some id; step = connect; busy = false }
      | none ↦ record w { error = message; busy = false }
    ]

-- `handleConnect`; `connected` says whether `connectServer` succeeds.
unfoldable pub handle_connect : Bool → Wizard → Wizard
handle_connect connected w = elim w.server_id [
  | none ↦ w
  | some id ↦
      if truthy id
      then (if connected
          then record w { conn_result = some conn_ok; step = done; busy = false }
          else record w { conn_result = some conn_fail; busy = false })
      else w
]

pub data Event : Type 0 where
  typed : Text → Text → Event
  got_started went_back skipped dismissed_it : Event
  added : Option Text → Text → Event
  tried : Bool → Event

-- Each button is there in its step only.
unfoldable pub next : Wizard → Event → Wizard
next w (typed name host) = record w { name = name; host = host }
next w got_started = elim w.step [ welcome ↦ record w { step = server } | _ ↦ w ]
next w went_back = elim w.step [ server ↦ record w { step = welcome } | _ ↦ w ]
next w (added created message) = elim w.step [
  | server ↦ handle_add_server created message w
  | _ ↦ w
]
next w (tried connected) = elim w.step [ connect ↦ handle_connect connected w | _ ↦ w ]
next w skipped = elim w.step [ connect ↦ record w { step = done } | _ ↦ w ]
next w dismissed_it = dismiss w

unfoldable pub run : Wizard → List Event → Wizard
run w [] = w
run w (e ∷ es) = run (next w e) es
