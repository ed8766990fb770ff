-- ===== src/Backups/Tests.antt =====
-- Runs of the definitions for frontend/app/(dashboard)/backups/page.tsx, and the theorem at a concrete input.
use ventopanel.Base.{ℕ, ◌≡◌, refl, true, false, Option, none, some, List, [], ◌∷◌, Text, text}
use ventopanel.Api.Fetch.{Reply}
use ventopanel.Api.Raw.{download_backup}
use ventopanel.Backups.Page.{
  Backups, Event, download, first_form, clicked_download, replied, handle_download, finish, step,
  run,
}
use ventopanel.Backups.Downloads.{ShowsTruth, run-ShowsTruth}

abbrev untouched : Backups
untouched = record {
  downloading = none;
  settings_open = false;
  form = first_form;
  saving_settings = false;
  waiting = [];
  files = [];
  browser = record { in_browser = true; token = none; location = text "/backups" };
}

abbrev reads : Text → Option ℕ
reads body = none

abbrev no_message : Text → Option Text
no_message body = none

abbrev fine : Option Reply
fine = some (record { status = 200; body = text "data" })

-- A second download begins before the first is over.
abbrev two_downloads : List Event
two_downloads =
    clicked_download (text "a.gz") ∷ clicked_download (text "b.gz") ∷ replied 0 fine ∷ []

shows_none_though_one_waits :
    let b = run reads no_message untouched two_downloads in
    (b.downloading ≡ none)
    × (b.waiting ≡ download (text "b.gz") ∷ [])
    × (b.files ≡ (text "a.gz", text "data") ∷ [])
unfolding run step handle_download finish download_backup
shows_none_though_one_waits = (refl, refl, refl)

run-ShowsTruth_example : ShowsTruth (run reads no_message untouched two_downloads)
run-ShowsTruth_example = run-ShowsTruth reads no_message two_downloads untouched tt
