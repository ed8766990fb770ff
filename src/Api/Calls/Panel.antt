-- ===== src/Api/Calls/Panel.antt =====
-- The calls of frontend/lib/api.ts for the panel itself: audit, settings, backups, dashboard, templates.
use ventopanel.Base.{
  ℕ, ◌==◌, if◌then◌else◌, Bool, Option, none, some, List, [], ◌∷◌, ◌++◌, Text, text, show,
}
use ventopanel.Api.Uri.Forms.{form_encode}
use ventopanel.Api.Uri.Queries.{query_text}
use ventopanel.Api.Session.{present}
use ventopanel.Api.Fetch.{
  post, patch, str, num, flag, Body, ApiCall, plain, with_method, with_body, ListResponse,
  items_or_empty, whole, ignored,
}

pub record AuditParams : Type 0 where
  pub resource_type : Option Text
  pub resource_id : Option Text
  pub limit : Option ℕ
  pub before : Option Text

-- `if (value) qs.set(name, value)`: an empty text and a zero are left out.
abbrev pub set_text : Text → Option Text → List (Text × Text)
set_text name value = elim (present value) [ none ↦ [] | some v ↦ (name, v) ∷ [] ]

abbrev pub set_number : Text → Option ℕ → List (Text × Text)
set_number name none = []
set_number name (some n) = if n == 0 then [] else (name, show n) ∷ []

abbrev pub audit_parameters : AuditParams → List (Text × Text)
audit_parameters p =
    set_text (text "resource_type") p.resource_type
    ++ (set_text (text "resource_id") p.resource_id
        ++ (set_number (text "limit") p.limit ++ set_text (text "before") p.before))

-- `URLSearchParams.toString`
abbrev pub form_text : List (Text × Text) → Text
form_text [] = []
form_text ((k, v) ∷ more) = query_text form_encode k v more

abbrev pub audit_query : AuditParams → Text
audit_query p = form_text (audit_parameters p)

pub record NotificationSettings : Type 0 where
  pub telegram_bot_token : Text
  pub telegram_chat_id : Text
  pub whatsapp_webhook_url : Text
  pub uptime_notify_down : Bool
  pub uptime_notify_recovery : Bool
  pub uptime_fail_threshold : ℕ
  pub uptime_recovery_threshold : ℕ
  pub deploy_notify_success : Bool
  pub deploy_notify_failure : Bool

abbrev pub notification_body : NotificationSettings → Body
notification_body s =
    (text "telegram_bot_token", str s.telegram_bot_token)
    ∷ (text "telegram_chat_id", str s.telegram_chat_id)
    ∷ (text "whatsapp_webhook_url", str s.whatsapp_webhook_url)
    ∷ (text "uptime_notify_down", flag s.uptime_notify_down)
    ∷ (text "uptime_notify_recovery", flag s.uptime_notify_recovery)
    ∷ (text "uptime_fail_threshold", num s.uptime_fail_threshold)
    ∷ (text "uptime_recovery_threshold", num s.uptime_recovery_threshold)
    ∷ (text "deploy_notify_success", flag s.deploy_notify_success)
    ∷ (text "deploy_notify_failure", flag s.deploy_notify_failure)
    ∷ []

-- `Partial<BackupSettings>`
pub record PartialBackupSettings : Type 0 where
  pub auto_enabled : Option Bool
  pub retention_count : Option ℕ
  pub notify_success : Option Bool

abbrev given_flag : Text → Option Bool → Body
given_flag name none = []
given_flag name (some v) = (name, flag v) ∷ []

abbrev given_number : Text → Option ℕ → Body
given_number name none = []
given_number name (some v) = (name, num v) ∷ []

abbrev pub backup_body : PartialBackupSettings → Body
backup_body s =
    given_flag (text "auto_enabled") s.auto_enabled
    ++ (given_number (text "retention_count") s.retention_count
        ++ given_flag (text "notify_success") s.notify_success)

pub record PointsResponse (T : Type 0) : Type 0 where
  pub points : Option (List T)

abbrev points_or_empty : {T : Type 0} → Option (PointsResponse T) → Option (List T)
points_or_empty none = none
points_or_empty (some d) = elim d.points [ none ↦ some [] | some ts ↦ some ts ]

unfoldable pub fetch_audit_events : {R : Type 0} → AuditParams → ApiCall R (Option R)
fetch_audit_events params = record {
  path = text "/audit?" ++ audit_query params;
  options = plain;
  finish = whole;
}

unfoldable pub fetch_notification_settings : {R : Type 0} → ApiCall R (Option R)
fetch_notification_settings = record {
  path = text "/settings/notifications";
  options = plain;
  finish = whole;
}

unfoldable pub update_notification_settings :
    {R : Type 0} → NotificationSettings → ApiCall R (Unit {0})
update_notification_settings settings = record {
  path = text "/settings/notifications";
  options = with_body patch (notification_body settings);
  finish = ignored;
}

unfoldable pub test_notification : {R : Type 0} → ApiCall R (Unit {0})
test_notification = record {
  path = text "/settings/notifications/test";
  options = with_method post;
  finish = ignored;
}

unfoldable pub fetch_uptime_overview : {T : Type 0} → ApiCall (ListResponse T) (List T)
fetch_uptime_overview = record {
  path = text "/uptime/overview";
  options = plain;
  finish = items_or_empty;
}

unfoldable pub fetch_backups : {T : Type 0} → ApiCall (ListResponse T) (List T)
fetch_backups = record { path = text "/backups"; options = plain; finish = items_or_empty }

unfoldable pub trigger_backup : {R : Type 0} → ApiCall R (Unit {0})
trigger_backup = record {
  path = text "/backups/trigger";
  options = with_method post;
  finish = ignored;
}

unfoldable pub fetch_dashboard_summary : {R : Type 0} → ApiCall R (Option R)
fetch_dashboard_summary = record {
  path = text "/dashboard/summary";
  options = plain;
  finish = whole;
}

unfoldable pub fetch_uptime_trend : {T : Type 0} → ApiCall (PointsResponse T) (List T)
fetch_uptime_trend = record {
  path = text "/dashboard/uptime-trend";
  options = plain;
  finish = points_or_empty;
}

unfoldable pub fetch_deploy_trend : {T : Type 0} → ApiCall (PointsResponse T) (List T)
fetch_deploy_trend = record {
  path = text "/dashboard/deploy-trend";
  options = plain;
  finish = points_or_empty;
}

unfoldable pub fetch_templates : {T : Type 0} → ApiCall (ListResponse T) (List T)
fetch_templates = record { path = text "/templates"; options = plain; finish = items_or_empty }

unfoldable pub fetch_template_by_id : {R : Type 0} → Text → ApiCall R (Option R)
fetch_template_by_id id = record {
  path = text "/templates/" ++ id;
  options = plain;
  finish = whole;
}

unfoldable pub fetch_backup_settings : {R : Type 0} → ApiCall R (Option R)
fetch_backup_settings = record { path = text "/settings/backup"; options = plain; finish = whole }

unfoldable pub update_backup_settings : {R : Type 0} → PartialBackupSettings → ApiCall R (Unit {0})
update_backup_settings s = record {
  path = text "/settings/backup";
  options = with_body patch (backup_body s);
  finish = ignored;
}
