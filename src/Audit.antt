-- ===== src/Audit.antt =====
-- frontend/app/(dashboard)/audit/page.tsx and frontend/hooks/use-audit.ts: the audit log.
pub mod Statuses
pub mod Paging
pub mod Times
pub mod Chips
mod Tests
use ventopanel.Base.{
  ℕ, if◌then◌else◌, not, ◌&&◌, ◌||◌, Bool, true, false, Option, none, some, List, [], ◌∷◌, ◌++◌,
  Text, text, truthy, trim, to_lower, contains, includes, keep_if, length, lookup,
}

-- `AuditEvent` of frontend/lib/api.ts, as far as the page reads it. A reason or an old status can be
-- missing.
pub record AuditEvent : Type 0 where
  pub resource_id : Text
  pub from_status : Option Text
  pub to_status : Text
  pub reason : Option Text

abbrev pub success_statuses : List Text
success_statuses =
    text "deployed"
    ∷ text "connected"
    ∷ text "provisioned"
    ∷ text "ready_for_deploy"
    ∷ text "ssl_active"
    ∷ text "ssl_renewed"
    ∷ []

abbrev pub error_statuses : List Text
error_statuses =
    text "failed"
    ∷ text "error"
    ∷ text "access_denied"
    ∷ text "deploy_failed"
    ∷ text "provision_failed"
    ∷ text "ssl_failed"
    ∷ text "connection_failed"
    ∷ []

unfoldable pub is_success : Text → Bool
is_success s = includes success_statuses (to_lower s)

unfoldable pub is_error : Text → Bool
is_error s =
    includes error_statuses (to_lower s)
    || contains (to_lower s) (text "fail")
    || contains (to_lower s) (text "error")

-- The class of an event's row and icon: the error is asked first.
pub data EventClass : Type 0 where
  failure success progress other : EventClass

unfoldable pub event_class : AuditEvent → EventClass
event_class e =
    let to = to_lower e.to_status in
    if is_error to
    then failure
    else if is_success to
    then success
    else if contains to (text "deploy") || contains to (text "provision")
    then progress
    else other

abbrev pub optional_contains : Option Text → Text → Bool
optional_contains none q = false
optional_contains (some s) q = contains (to_lower s) q

unfoldable pub is_found : Text → AuditEvent → Bool
is_found q e =
    contains (to_lower e.resource_id) q
    || optional_contains e.reason q
    || contains (to_lower e.to_status) q
    || optional_contains e.from_status q

-- The events that are shown for a search.
unfoldable pub shown_events : Text → List AuditEvent → List AuditEvent
shown_events search events =
    if truthy (trim search) then keep_if (is_found (to_lower search)) events else events

pub record Stats : Type 0 where
  pub total : ℕ
  pub errors : ℕ
  pub successes : ℕ

unfoldable pub stats_of : List AuditEvent → Stats
stats_of events = record {
  total = length events;
  errors = length (keep_if (λ e. is_error e.to_status) events);
  successes = length (keep_if (λ e. is_success e.to_status) events);
}
