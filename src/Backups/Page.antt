-- ===== src/Backups/Page.antt =====
-- The state and the handlers of frontend/app/(dashboard)/backups/page.tsx. A call is two steps, from its click to its
-- request and from the reply on.
use ventopanel.Base.{
  ℕ, if◌then◌else◌, Bool, true, false, not, ◌&&◌, Option, none, some, List, [], ◌∷◌, ◌++◌, Text,
  text_eq, get_elem?, remove_at,
}
use ventopanel.Api.Session.{Browser}
use ventopanel.Api.Fetch.{Reply, Outcome, ok, threw, perform}
use ventopanel.Api.Fetch.Performed.{replying}
use ventopanel.Api.Calls.Panel.{trigger_backup, update_backup_settings}
use ventopanel.Api.Raw.{download_backup}

-- `BackupSettings` of frontend/lib/api.ts.
pub record BackupSettings : Type 0 where
  pub auto_enabled : Bool
  pub retention_count : ℕ
  pub notify_success : Bool

pub data BackupCall : Type 0 where
  trigger : BackupCall
  save : BackupSettings → BackupCall
  download : Text → BackupCall

-- `waiting` has the requests that wait, the oldest first, and `files` the names and contents that the browser was
-- told to save.
pub record Backups : Type 0 where
  pub downloading : Option Text
  pub settings_open : Bool
  pub form : BackupSettings
  pub saving_settings : Bool
  pub waiting : List BackupCall
  pub files : List (Text × Text)
  pub browser : Browser

abbrev pub first_form : BackupSettings
first_form = record { auto_enabled = true; retention_count = 7; notify_success = false }

-- `isPending` of the mutation that makes a backup.
abbrev pub triggering : List BackupCall → Bool
triggering [] = false
triggering (trigger ∷ calls) = true
triggering (save form ∷ calls) = triggering calls
triggering (download name ∷ calls) = triggering calls

abbrev pub send : BackupCall → Backups → Backups
send call b = record b { waiting = b.waiting ++ call ∷ [] }

abbrev pub is_downloading : Option Text → Text → Bool
is_downloading none name = false
is_downloading (some other) name = text_eq other name

-- `handleDownload` up to its request, from a button that is not offered while its file is downloaded.
unfoldable pub handle_download : Text → Backups → Backups
handle_download name b =
    if is_downloading b.downloading name
    then b
    else send (download name) (record b { downloading = some name })

-- `handleSaveSettings` up to its request.
unfoldable pub handle_save_settings : Backups → Backups
handle_save_settings b =
    if b.settings_open && not b.saving_settings
    then send (save b.form) (record b { saving_settings = true })
    else b

abbrev pub save_done : Outcome (Unit {0}) → Backups → Backups
save_done (ok done) b = record b { settings_open = false; saving_settings = false }
save_done (threw e) b = record b { saving_settings = false }

abbrev pub download_done : Outcome (Text × Text) → Backups → Backups
download_done (ok file) b = record b { files = b.files ++ file ∷ []; downloading = none }
download_done (threw e) b = record b { downloading = none }

-- `fetched` is the effect on the settings.
pub data Event : Type 0 where
  fetched : BackupSettings → Event
  toggled_settings closed_settings submitted clicked_run : Event
  ticked_auto ticked_notify : Bool → Event
  chose_retention : ℕ → Event
  clicked_download : Text → Event
  replied : ℕ → Option Reply → Event

-- `parse` reads a reply that is not used, and `error_of` the message of a failed download.
module _ {R : Type 0} (parse : Text → Option R) (error_of : Text → Option Text) where
  unfoldable pub finish : BackupCall → Option Reply → Backups → Backups
  finish trigger reply b = record b {
    browser = (perform parse (replying reply) trigger_backup b.browser).1;
  }
  finish (save form) reply b =
      let (outcome, browser) =
        perform parse (replying reply)
          (update_backup_settings (record {
            auto_enabled = some form.auto_enabled;
            retention_count = some form.retention_count;
            notify_success = some form.notify_success;
          }))
          b.browser in
      save_done outcome (record b { browser = browser })
  finish (download name) reply b =
      let (outcome, browser) = download_backup error_of (replying reply) name b.browser in
      download_done outcome (record b { browser = browser })

  unfoldable pub step : Backups → Event → Backups
  step b (fetched settings) = record b { form = settings }
  step b toggled_settings = record b { settings_open = not b.settings_open }
  step b closed_settings = record b { settings_open = false }
  step b submitted = handle_save_settings b
  step b clicked_run = if triggering b.waiting then b else send trigger b
  step b (ticked_auto on) = record b { form = record b.form { auto_enabled = on } }
  step b (ticked_notify on) = record b { form = record b.form { notify_success = on } }
  step b (chose_retention n) = record b { form = record b.form { retention_count = n } }
  step b (clicked_download name) = handle_download name b
  step b (replied i reply) = elim (get_elem? b.waiting i) [
    | none ↦ b
    | some call ↦ finish call reply (record b { waiting = remove_at i b.waiting })
  ]

  unfoldable pub run : Backups → List Event → Backups
  run b [] = b
  run b (e ∷ es) = run (step b e) es
