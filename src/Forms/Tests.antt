-- ===== src/Forms/Tests.antt =====
-- Runs of the definitions for the dialogs of servers and sites, and the theorems at concrete inputs.
use ventopanel.Base.{◌≡◌, refl, false, none, List, [], ◌∷◌, ◌++◌, text}
use ventopanel.Forms.ServerForm.{Setting, name, port, opened_form, set, set_all}
use ventopanel.Forms.SiteForm.{
  SiteForm, Event, typed, chose_template, servers_changed, fill, Holds, apply_template, step, run,
  run-servers_changed,
}
use ventopanel.Forms.SiteForm

abbrev settings : List Setting
settings = name (text "a") ∷ port 2222 ∷ name (text "ab") ∷ []

last_name_counts : (set_all settings (opened_form none)).name ≡ text "ab"
unfolding set_all opened_form set
last_name_counts = refl

abbrev new_site : SiteForm
new_site = record {
  form = SiteForm.default_form [];
  show_templates = false;
  site = none;
  servers = none;
}

abbrev typing : List Event
typing =
    typed (SiteForm.name (text "shop"))
    ∷ chose_template (record { id = text "t"; runtime = text "php"; healthcheck_path = [] })
    ∷ []

takes_template : (run new_site typing).form.runtime ≡ text "php"
unfolding run step apply_template
takes_template = refl

run-servers_changed_example :
    Holds none
      (text "s1")
      (run (fill new_site) (typing ++ servers_changed (text "s1" ∷ []) ∷ [])).form
    × ((run (fill new_site) (typing ++ servers_changed (text "s1" ∷ []) ∷ [])).form
        ≡ record (fill new_site).form {
          server_id =
              (run
                (fill new_site)
                (typing ++ servers_changed (text "s1" ∷ []) ∷ [])).form.server_id;
        })
run-servers_changed_example = run-servers_changed typing (text "s1" ∷ []) new_site
