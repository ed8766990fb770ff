-- ===== src/Audit/Tests.antt =====
-- Runs of the definitions for frontend/app/(dashboard)/audit/page.tsx, and the theorem at a concrete input.
use ventopanel.Base.{
  show, ◌-◌, some, Text, ℕ, zero, suc, Option, arith, ◌≡◌, refl, none, List, [], ◌∷◌, Text, text,
  length,
}
use ventopanel.Audit.{
  AuditEvent, is_success, is_error, event_class, failure, is_found, shown_events, stats_of,
}
use ventopanel.Audit.Times.{age, on_date, relative_time, IsAgeOf, age-IsAgeOf}
use ventopanel.Api.Calls.Panel.{AuditParams}
use ventopanel.Audit.Paging.{AuditPage, Filters, page_at}

abbrev event : Text → AuditEvent
event to = record { resource_id = text "abc"; from_status = none; to_status = to; reason = none }

abbrev events : List AuditEvent
events = event (text "Deployed") ∷ event (text "deploy_failed") ∷ event (text "pending") ∷ []

failed_deploy : event_class (event (text "Deploy_Failed")) ≡ failure
unfolding event_class is_error
failed_deploy = refl

found_by_status : length (shown_events (text "FAIL") events) ≡ 1
unfolding shown_events is_found
found_by_status = refl

counts : ((stats_of events).errors ≡ 1) × ((stats_of events).successes ≡ 1)
unfolding stats_of is_error is_success
counts = (refl, refl)

-- A server whose cursors are the places of the events, as one character.
abbrev place : ℕ → Text
place zero = []
place (suc n) = suc n ∷ []

abbrev page_of : Option ℕ → Option Text → Option AuditPage
page_of none before = none
page_of (some size) none = some (page_at size events place 0)
page_of (some size) (some []) = none
page_of (some size) (some (c ∷ t)) = some (page_at size events place c)

abbrev serve : AuditParams → Option AuditPage
serve params = page_of params.limit params.before

abbrev no_filters : Filters
no_filters = record { resource_type = none; resource_id = none }

eight_days_have_a_date : age 700000000 0 ≡ on_date
unfolding age
eight_days_have_a_date = refl

shows_minutes : relative_time show 125000 0 ≡ text "2m ago"
unfolding relative_time age show
shows_minutes = refl

age-IsAgeOf_example : IsAgeOf (7200000 - 1000) (age 7200000 1000)
age-IsAgeOf_example = age-IsAgeOf 7200000 1000 (omega arith)
