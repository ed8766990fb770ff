-- ===== src/Account/Settings.antt =====
-- The form of frontend/app/(dashboard)/settings/page.tsx, and `parseInt`.
use ventopanel.Base.{
  ℕ, ◌+◌, ◌-◌, ◌*◌, ◌≤◌, ◌==◌, leb, ◌&&◌, min, max, Bool, true, false, if◌then◌else◌, Option, none,
  some, List, [], ◌∷◌, Text, trim_start, All, arith,
}
use ventopanel.Api.Fetch.{ApiCall}
use ventopanel.Api.Calls.Panel.{NotificationSettings, update_notification_settings}
use ventopanel.Forms.Typing.{some_or}

abbrev is_digit : ℕ → Bool
is_digit c = leb b'0' c && leb c b'9'

-- The digits at the beginning, after a value of those before.
unfoldable pub digits_from : ℕ → Text → ℕ
digits_from n [] = n
digits_from n (c ∷ s) = elim (is_digit c) [ true ↦ digits_from (10 * n + (c - b'0')) s | false ↦ n ]

-- `parseInt(s, 10) || 1` within 1: a number below 1 counts as 1, as 0 and what is no number do.
unfoldable pub at_least_one : Text → ℕ
unfolding digits_from
at_least_one [] = 1
at_least_one (c ∷ s) =
    if is_digit c
    then max 1 (digits_from 0 (c ∷ s))
    else if c == b'+'
    then max 1 (digits_from 0 s)
    else 1

-- `Math.min(60, Math.max(1, parseInt(value, 10) || 1))`
unfoldable pub threshold : Text → ℕ
threshold value = min 60 (at_least_one (trim_start value))

-- The settings as they are fetched; a threshold that is no number is none.
pub record Fetched : Type 0 where
  pub telegram_bot_token : Option Text
  pub telegram_chat_id : Option Text
  pub whatsapp_webhook_url : Option Text
  pub uptime_notify_down : Option Bool
  pub uptime_notify_recovery : Option Bool
  pub uptime_fail_threshold : Option ℕ
  pub uptime_recovery_threshold : Option ℕ
  pub deploy_notify_success : Option Bool
  pub deploy_notify_failure : Option Bool

-- The effect on the fetched data.
unfoldable pub form_of : Fetched → NotificationSettings
form_of d = record {
  telegram_bot_token = some_or d.telegram_bot_token [];
  telegram_chat_id = some_or d.telegram_chat_id [];
  whatsapp_webhook_url = some_or d.whatsapp_webhook_url [];
  uptime_notify_down = some_or d.uptime_notify_down true;
  uptime_notify_recovery = some_or d.uptime_notify_recovery true;
  uptime_fail_threshold = some_or d.uptime_fail_threshold 1;
  uptime_recovery_threshold = some_or d.uptime_recovery_threshold 1;
  deploy_notify_success = some_or d.deploy_notify_success false;
  deploy_notify_failure = some_or d.deploy_notify_failure true;
}

abbrev pub first_form : NotificationSettings
first_form = record {
  telegram_bot_token = [];
  telegram_chat_id = [];
  whatsapp_webhook_url = [];
  uptime_notify_down = true;
  uptime_notify_recovery = true;
  uptime_fail_threshold = 1;
  uptime_recovery_threshold = 1;
  deploy_notify_success = false;
  deploy_notify_failure = true;
}

pub data Event : Type 0 where
  fetched : Fetched → Event
  typed_token typed_chat typed_webhook typed_fail typed_recovery : Text → Event
  ticked_down ticked_recovery ticked_success ticked_failure : Bool → Event

unfoldable pub step : NotificationSettings → Event → NotificationSettings
step f (fetched d) = form_of d
step f (typed_token t) = record f { telegram_bot_token = t }
step f (typed_chat t) = record f { telegram_chat_id = t }
step f (typed_webhook t) = record f { whatsapp_webhook_url = t }
step f (typed_fail t) = record f { uptime_fail_threshold = threshold t }
step f (typed_recovery t) = record f { uptime_recovery_threshold = threshold t }
step f (ticked_down b) = record f { uptime_notify_down = b }
step f (ticked_recovery b) = record f { uptime_notify_recovery = b }
step f (ticked_success b) = record f { deploy_notify_success = b }
step f (ticked_failure b) = record f { deploy_notify_failure = b }

unfoldable pub run : NotificationSettings → List Event → NotificationSettings
run f [] = f
run f (e ∷ es) = run (step f e) es

-- `handleSubmit`
unfoldable pub handle_submit : {R : Type 0} → NotificationSettings → ApiCall R (Unit {0})
handle_submit form = update_notification_settings form

abbrev pub IsThreshold : ℕ → Type 0
IsThreshold n = (1 ≤ n) × (n ≤ 60)

abbrev pub HasThresholds : NotificationSettings → Type 0
HasThresholds f = IsThreshold f.uptime_fail_threshold × IsThreshold f.uptime_recovery_threshold

abbrev pub IsThresholdOrNone : Option ℕ → Type 0
IsThresholdOrNone none = Unit {0}
IsThresholdOrNone (some n) = IsThreshold n

-- The server has thresholds within the bounds, or none.
abbrev pub IsUsual : Event → Type 0
IsUsual (fetched d) =
    IsThresholdOrNone d.uptime_fail_threshold × IsThresholdOrNone d.uptime_recovery_threshold
IsUsual _ = Unit {0}

threshold-IsThreshold : (t : Text) → IsThreshold (threshold t)
unfolding threshold at_least_one
threshold-IsThreshold t = at_most_sixty (trim_start t)
  where
    at_most_sixty : (s : Text) → IsThreshold (min 60 (at_least_one s))
    at_most_sixty [] = omega arith
    at_most_sixty (c ∷ s) = ground arith

some_or-IsThreshold : (o : Option ℕ) → IsThresholdOrNone o → IsThreshold (some_or o 1)
some_or-IsThreshold none h = omega arith
some_or-IsThreshold (some n) h = h

step-HasThresholds :
    (e : Event) (f : NotificationSettings) → IsUsual e → HasThresholds f → HasThresholds (step f e)
unfolding step form_of
step-HasThresholds (fetched d) f (u, v) h = (
  some_or-IsThreshold d.uptime_fail_threshold u,
  some_or-IsThreshold d.uptime_recovery_threshold v,
)
step-HasThresholds (typed_fail t) f u (h, k) = (threshold-IsThreshold t, k)
step-HasThresholds (typed_recovery t) f u (h, k) = (h, threshold-IsThreshold t)
step-HasThresholds e f u h = h

run_from-HasThresholds :
    (es : List Event) (f : NotificationSettings)
    → All IsUsual es
    → HasThresholds f
    → HasThresholds (run f es)
unfolding run
run_from-HasThresholds [] f u h = h
run_from-HasThresholds (e ∷ es) f (u, us) h =
    run_from-HasThresholds es (step f e) us (step-HasThresholds e f u h)

-- Whatever is typed into the form and fetched for it, the thresholds that a submission sends are from 1 to 60, if those that
-- are fetched are.
run-HasThresholds : (es : List Event) → All IsUsual es → HasThresholds (run first_form es)
run-HasThresholds es u = run_from-HasThresholds es first_form u (omega arith, omega arith)
