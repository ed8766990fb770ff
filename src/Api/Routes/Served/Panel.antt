-- ===== src/Api/Routes/Served/Panel.antt =====
-- The calls of Api/Calls/Panel.antt meet the routes of internal/transport/http/router.go.
use ventopanel.Base.{refl, none, some, [], ◌∷◌, ◌++◌, Text, text}
use ventopanel.Api.Routes.{IsServed}
use ventopanel.Api.Routes.Filling.{IsSegment, served, checked, plain}
use ventopanel.Api.Calls.Panel.{
  AuditParams, NotificationSettings, PartialBackupSettings, audit_query, fetch_audit_events,
  fetch_notification_settings, update_notification_settings, test_notification,
  fetch_uptime_overview, fetch_backups, trigger_backup, fetch_dashboard_summary, fetch_uptime_trend,
  fetch_deploy_trend, fetch_templates, fetch_template_by_id, fetch_backup_settings,
  update_backup_settings,
}

-- The arguments of the calls.
pub record Args : Type 0 where
  pub params : AuditParams
  pub settings : NotificationSettings
  pub id : Text
  pub s : PartialBackupSettings

-- What the source puts in a path as it is must be a segment, and what it encodes a text.
pub record IsUsable (a : Args) : Type 0 where
  pub id : IsSegment a.id

abbrev pub AllPanel : Type 0 → Args → Type 0
AllPanel R a =
    IsServed (fetch_audit_events {R = R} params)
    × IsServed (fetch_notification_settings {R = R})
    × IsServed (update_notification_settings {R = R} settings)
    × IsServed (test_notification {R = R})
    × IsServed (fetch_uptime_overview {T = R})
    × IsServed (fetch_backups {T = R})
    × IsServed (trigger_backup {R = R})
    × IsServed (fetch_dashboard_summary {R = R})
    × IsServed (fetch_uptime_trend {T = R})
    × IsServed (fetch_deploy_trend {T = R})
    × IsServed (fetch_templates {T = R})
    × IsServed (fetch_template_by_id {R = R} id)
    × IsServed (fetch_backup_settings {R = R})
    × IsServed (update_backup_settings {R = R} s)
  where
    open a use {params, settings, id, s}

pub panel-served : (R : Type 0) (a : Args) → IsUsable a → AllPanel R a
unfolding fetch_audit_events fetch_notification_settings update_notification_settings
    test_notification fetch_uptime_overview fetch_backups trigger_backup fetch_dashboard_summary
    fetch_uptime_trend fetch_deploy_trend fetch_templates fetch_template_by_id fetch_backup_settings
    update_backup_settings
panel-served R a h = (
  served 77 _ (text "audit") ([]) (some (text "?" ++ audit_query params)) refl (refl, tt)
      (checked (text "audit") refl) tt refl,
  served 82 _ (text "settings") (text "notifications" ∷ []) none refl (refl, (refl, tt))
      (checked (text "settings") refl) (checked (text "notifications") refl, tt) tt,
  served 83 _ (text "settings") (text "notifications" ∷ []) none refl (refl, (refl, tt))
      (checked (text "settings") refl) (checked (text "notifications") refl, tt) tt,
  served 84 _ (text "settings") (text "notifications" ∷ text "test" ∷ []) none refl
      (refl, (refl, (refl, tt))) (checked (text "settings") refl)
      (checked (text "notifications") refl, (checked (text "test") refl, tt)) tt,
  served 70 _ (text "uptime") (text "overview" ∷ []) none refl (refl, (refl, tt))
      (checked (text "uptime") refl) (checked (text "overview") refl, tt) tt,
  served 71 _ (text "backups") ([]) none refl (refl, tt) (checked (text "backups") refl) tt tt,
  served 72 _ (text "backups") (text "trigger" ∷ []) none refl (refl, (refl, tt))
      (checked (text "backups") refl) (checked (text "trigger") refl, tt) tt,
  served 94 _ (text "dashboard") (text "summary" ∷ []) none refl (refl, (refl, tt))
      (checked (text "dashboard") refl) (checked (text "summary") refl, tt) tt,
  served 95 _ (text "dashboard") (text "uptime-trend" ∷ []) none refl (refl, (refl, tt))
      (checked (text "dashboard") refl) (checked (text "uptime-trend") refl, tt) tt,
  served 96 _ (text "dashboard") (text "deploy-trend" ∷ []) none refl (refl, (refl, tt))
      (checked (text "dashboard") refl) (checked (text "deploy-trend") refl, tt) tt,
  served 97 _ (text "templates") ([]) none refl (refl, tt) (checked (text "templates") refl) tt tt,
  served 98 _ (text "templates") (id ∷ []) none refl (refl, tt) (checked (text "templates") refl)
      (plain _ h.id, tt) tt,
  served 85 _ (text "settings") (text "backup" ∷ []) none refl (refl, (refl, tt))
      (checked (text "settings") refl) (checked (text "backup") refl, tt) tt,
  served 86 _ (text "settings") (text "backup" ∷ []) none refl (refl, (refl, tt))
      (checked (text "settings") refl) (checked (text "backup") refl, tt) tt,
)
  where
    open a use {params, settings, id, s}
