-- ===== src/Backups/Downloads.antt =====
-- What the page of Backups/Page.antt shows of its downloads.
use ventopanel.Base.{
  ℕ, zero, suc, ◌≡◌, refl, sym, ap, subst, ◌∙◌, inl, inr, if◌then◌else◌, Bool, true, false, not,
  ◌&&◌, ◌||◌, Option, none, some, Option-cases, List, [], ◌∷◌, ◌++◌, Text, text_eq, text_eq_iff,
  get_elem?, remove_at, arith,
}
use ventopanel.Api.Fetch.{Reply, Outcome, ok, threw}
use ventopanel.Backups.Page.{
  BackupCall, trigger, save, download, Backups, triggering, send, is_downloading, handle_download,
  handle_save_settings, save_done, download_done, Event, submitted, clicked_run, clicked_download,
  replied, finish, step, run,
}

-- A download of this file is among the calls.
abbrev pub downloads : Text → List BackupCall → Bool
downloads name [] = false
downloads name (trigger ∷ calls) = downloads name calls
downloads name (save form ∷ calls) = downloads name calls
downloads name (download other ∷ calls) = text_eq other name || downloads name calls

-- The file that is shown as being downloaded is.
abbrev pub IsUnderWay : Option Text → List BackupCall → Type 0
IsUnderWay none calls = Unit {0}
IsUnderWay (some name) calls = downloads name calls ≡ true

abbrev pub ShowsTruth : Backups → Type 0
ShowsTruth b = IsUnderWay b.downloading b.waiting

downloads-append :
    (name : Text) (calls : List BackupCall) (call : BackupCall)
    → downloads name (calls ++ call ∷ []) ≡ (downloads name calls || downloads name (call ∷ []))
downloads-append name [] call = refl
downloads-append name (trigger ∷ calls) call = downloads-append name calls call
downloads-append name (save form ∷ calls) call = downloads-append name calls call
downloads-append name (download other ∷ calls) call =
    ground (arith, downloads-append name calls call)

abbrev IsNoDownload : BackupCall → Type 0
IsNoDownload (download name) = ⊥
IsNoDownload _ = Unit {0}

abbrev HasNoDownload : Option BackupCall → Type 0
HasNoDownload none = Unit {0}
HasNoDownload (some call) = IsNoDownload call

downloads-remove_at :
    (name : Text) (calls : List BackupCall) (i : ℕ) (call : BackupCall)
    → get_elem? calls i ≡ some call
    → IsNoDownload call
    → downloads name (remove_at i calls) ≡ downloads name calls
downloads-remove_at name [] i call e n = refl
downloads-remove_at name (trigger ∷ calls) zero call e n = refl
downloads-remove_at name (save form ∷ calls) zero call e n = refl
downloads-remove_at name (download other ∷ calls) zero call e n =
    absurd (subst HasNoDownload (sym e) n)
downloads-remove_at name (trigger ∷ calls) (suc i) call e n =
    downloads-remove_at name calls i call e n
downloads-remove_at name (save form ∷ calls) (suc i) call e n =
    downloads-remove_at name calls i call e n
downloads-remove_at name (download other ∷ calls) (suc i) call e n =
    ap (λ b. text_eq other name || b) (downloads-remove_at name calls i call e n)

removed-IsUnderWay :
    (o : Option Text) (calls : List BackupCall) (i : ℕ) (call : BackupCall)
    → get_elem? calls i ≡ some call
    → IsNoDownload call
    → IsUnderWay o calls
    → IsUnderWay o (remove_at i calls)
removed-IsUnderWay none calls i call e n h = tt
removed-IsUnderWay (some name) calls i call e n h = downloads-remove_at name calls i call e n ∙ h

send-IsUnderWay :
    (o : Option Text) (calls : List BackupCall) (call : BackupCall)
    → IsUnderWay o calls
    → IsUnderWay o (calls ++ call ∷ [])
send-IsUnderWay none calls call h = tt
send-IsUnderWay (some name) calls call h = ground (arith, downloads-append name calls call)

sent-IsUnderWay :
    (name : Text) (calls : List BackupCall) → IsUnderWay (some name) (calls ++ download name ∷ [])
sent-IsUnderWay name calls =
    ground (arith, downloads-append name calls (download name), text_eq_iff name name)

if-ShowsTruth :
    (c : Bool) (a b : Backups) → ShowsTruth a → ShowsTruth b → ShowsTruth (if c then a else b)
if-ShowsTruth true a b h k = h
if-ShowsTruth false a b h k = k

save_done-ShowsTruth :
    (o : Outcome (Unit {0})) (b : Backups) → ShowsTruth b → ShowsTruth (save_done o b)
save_done-ShowsTruth (ok done) b h = h
save_done-ShowsTruth (threw e) b h = h

download_done-ShowsTruth :
    (o : Outcome (Text × Text)) (b : Backups) → ShowsTruth (download_done o b)
download_done-ShowsTruth (ok file) b = tt
download_done-ShowsTruth (threw e) b = tt

module _ {R : Type 0} (parse : Text → Option R) (error_of : Text → Option Text) where
  replied-ShowsTruth :
      (i : ℕ) (call : BackupCall) (reply : Option Reply) (b : Backups)
      → get_elem? b.waiting i ≡ some call
      → ShowsTruth b
      → ShowsTruth (finish parse error_of call reply (record b { waiting = remove_at i b.waiting }))
  unfolding finish
  replied-ShowsTruth i trigger reply b e h =
      removed-IsUnderWay b.downloading b.waiting i trigger e tt h
  replied-ShowsTruth i (save form) reply b e h =
      save_done-ShowsTruth _ _ (removed-IsUnderWay b.downloading b.waiting i (save form) e tt h)
  replied-ShowsTruth i (download name) reply b e h = download_done-ShowsTruth _ _

  step-ShowsTruth : (e : Event) (b : Backups) → ShowsTruth b → ShowsTruth (step parse error_of b e)
  unfolding step handle_download handle_save_settings
  step-ShowsTruth submitted b h =
      if-ShowsTruth (b.settings_open && not b.saving_settings)
        (send (save b.form) (record b { saving_settings = true })) b
        (send-IsUnderWay b.downloading b.waiting (save b.form) h) h
  step-ShowsTruth clicked_run b h =
      if-ShowsTruth (triggering b.waiting) b (send trigger b) h
        (send-IsUnderWay b.downloading b.waiting trigger h)
  step-ShowsTruth (clicked_download name) b h =
      if-ShowsTruth (is_downloading b.downloading name) b
        (send (download name) (record b { downloading = some name })) h
        (sent-IsUnderWay name b.waiting)
  step-ShowsTruth (replied i reply) b h = elim (Option-cases (get_elem? b.waiting i)) [
    | inl e ↦ rw (e, step) h
    | inr (call, e) ↦ rw (e, step) (replied-ShowsTruth i call reply b e h)
  ]
  step-ShowsTruth e b h = h

  -- Whatever is clicked and replied, if the page shows that a backup is being downloaded, a request for it waits.
  pub run-ShowsTruth :
      (es : List Event) (b : Backups) → ShowsTruth b → ShowsTruth (run parse error_of b es)
  unfolding run
  run-ShowsTruth [] b h = h
  run-ShowsTruth (e ∷ es) b h = run-ShowsTruth es (step parse error_of b e) (step-ShowsTruth e b h)
