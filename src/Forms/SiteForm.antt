-- ===== src/Forms/SiteForm.antt =====
-- The state of frontend/components/site-form.tsx and what it submits.
use ventopanel.Base.{
  ◌≡◌, refl, ap, sym, subst, ◌∙◌, if◌then◌else◌, Bool, false, not, Option, none, some, List, [],
  ◌∷◌, ◌++◌, Text, text, truthy, get_elem?,
}
use ventopanel.Api.Fetch.{ApiCall}
use ventopanel.Api.Calls.Sites.{SiteInput, create_site, update_site}
use ventopanel.Logs.Address.{text_or}
use ventopanel.Forms.Typing.{some_or}

-- `Site` and `SiteTemplate`, as far as the form reads them.
pub record Site : Type 0 where
  pub id : Text
  pub server_id : Text
  pub name : Text
  pub domain : Text
  pub runtime : Text
  pub repository_url : Text
  pub branch : Text
  pub status : Text
  pub healthcheck_path : Text
  pub template_id : Text

pub record SiteTemplate : Type 0 where
  pub id : Text
  pub runtime : Text
  pub healthcheck_path : Text

-- `servers` has the ids of the servers that the query holds, none before it holds any.
pub record SiteForm : Type 0 where
  pub form : SiteInput
  pub show_templates : Bool
  pub site : Option Site
  pub servers : Option (List Text)

-- `servers?.[0]?.ID ?? ""`
abbrev pub first_server : Option (List Text) → Text
first_server none = []
first_server (some []) = []
first_server (some (id ∷ ids)) = id

abbrev pub default_form : Text → SiteInput
default_form server_id = record {
  server_id = server_id;
  name = [];
  domain = [];
  runtime = text "node";
  repository_url = [];
  branch = text "main";
  healthcheck_path = some (text "/");
  template_id = some [];
  status = some (text "draft");
}

abbrev pub form_of : Site → SiteInput
form_of s = record {
  server_id = s.server_id;
  name = s.name;
  domain = s.domain;
  runtime = s.runtime;
  repository_url = s.repository_url;
  branch = text_or (text "main") s.branch;
  healthcheck_path = some (text_or (text "/") s.healthcheck_path);
  template_id = some s.template_id;
  status = some s.status;
}

abbrev pub filled : Option Site → Option (List Text) → SiteInput
filled none servers = default_form (first_server servers)
filled (some site) servers = form_of site

-- The effect on the site, the dialog's opening, and the servers.
unfoldable pub fill : SiteForm → SiteForm
fill f = record f { form = filled f.site f.servers; show_templates = false }

pub data Setting : Type 0 where
  server_id name domain runtime repository_url branch healthcheck_path : Text → Setting

-- `set` of the fields that the dialog has.
unfoldable pub set : Setting → SiteInput → SiteInput
set (server_id t) i = record i { server_id = t }
set (name t) i = record i { name = t }
set (domain t) i = record i { domain = t }
set (runtime t) i = record i { runtime = t }
set (repository_url t) i = record i { repository_url = t }
set (branch t) i = record i { branch = t }
set (healthcheck_path t) i = record i { healthcheck_path = some t }

unfoldable pub apply_template : SiteTemplate → SiteForm → SiteForm
apply_template t f = record f {
  form = record f.form {
    template_id = some t.id;
    runtime = t.runtime;
    healthcheck_path = some (text_or (text "/") t.healthcheck_path);
  };
  show_templates = false;
}

unfoldable pub clear_template : SiteForm → SiteForm
clear_template f = record f { form = record f.form { template_id = some [] } }

-- The call of `handleSubmit`.
unfoldable pub submitted : {R : Type 0} → SiteForm → ApiCall R (Option R)
submitted {R} f = elim f.site [
  | none ↦ create_site {R = R} f.form
  | some site ↦ update_site {R = R} site.id f.form
]

-- `servers_changed` is a fetch that brings another list than the one before: the query keeps the list
-- where nothing in it changed, and a change of a server's status makes another list too.
pub data Event : Type 0 where
  typed : Setting → Event
  chose_template : SiteTemplate → Event
  cleared_template toggled_templates : Event
  servers_changed : List Text → Event

unfoldable pub step : SiteForm → Event → SiteForm
step f (typed setting) = record f { form = set setting f.form }
step f (chose_template t) = apply_template t f
step f cleared_template = clear_template f
step f toggled_templates = record f { show_templates = not f.show_templates }
step f (servers_changed ids) = fill (record f { servers = some ids })

unfoldable pub run : SiteForm → List Event → SiteForm
run f [] = f
run f (e ∷ es) = run (step f e) es

run-site : (es : List Event) (f : SiteForm) → (run f es).site ≡ f.site
unfolding run step fill apply_template clear_template
run-site [] f = refl
run-site (typed setting ∷ es) f = run-site es (step f (typed setting))
run-site (chose_template t ∷ es) f = run-site es (step f (chose_template t))
run-site (cleared_template ∷ es) f = run-site es (step f cleared_template)
run-site (toggled_templates ∷ es) f = run-site es (step f toggled_templates)
run-site (servers_changed ids ∷ es) f = run-site es (step f (servers_changed ids))

run-append : (es fs : List Event) (f : SiteForm) → run f (es ++ fs) ≡ run (run f es) fs
unfolding run
run-append [] fs f = refl
run-append (e ∷ es) fs f = run-append es fs (step f e)

run-filled :
    (es : List Event) (ids : List Text) (f : SiteForm)
    → (run f (es ++ servers_changed ids ∷ [])).form ≡ filled f.site (some ids)
unfolding run step fill
run-filled es ids f =
    ap (λ g. g.form) (run-append es (servers_changed ids ∷ []) f)
    ∙ ap (λ site. filled site (some ids)) (run-site es f)

same_but_server :
    (site : Option Site) (before after : Option (List Text))
    → filled site after ≡ record (filled site before) { server_id = (filled site after).server_id }
same_but_server none before after = refl
same_but_server (some site) before after = refl

-- The form has the fields of the site that is edited, with `main` and `/` for an empty branch and path, or, for a new
-- site on this server, nothing but what a new site begins with.
abbrev pub Holds : Option Site → Text → SiteInput → Type 0
Holds (some site) server i =
    (i.server_id ≡ site.server_id)
    × (i.name ≡ site.name)
    × (i.domain ≡ site.domain)
    × (i.runtime ≡ site.runtime)
    × (i.repository_url ≡ site.repository_url)
    × (i.branch ≡ (if truthy site.branch then site.branch else text "main"))
    × (i.healthcheck_path
        ≡ some (if truthy site.healthcheck_path then site.healthcheck_path else text "/"))
    × (i.template_id ≡ some site.template_id)
    × (i.status ≡ some site.status)
Holds none server i =
    (i.server_id ≡ server)
    × (i.name ≡ [])
    × (i.domain ≡ [])
    × (i.runtime ≡ text "node")
    × (i.repository_url ≡ [])
    × (i.branch ≡ text "main")
    × (i.healthcheck_path ≡ some (text "/"))
    × (i.template_id ≡ some [])
    × (i.status ≡ some (text "draft"))

filled-Holds :
    (site : Option Site) (ids : List Text)
    → Holds site (some_or (get_elem? ids 0) []) (filled site (some ids))
filled-Holds none [] = (refl, refl, refl, refl, refl, refl, refl, refl, refl)
filled-Holds none (id ∷ ids) = (refl, refl, refl, refl, refl, refl, refl, refl, refl)
filled-Holds (some site) ids = (refl, refl, refl, refl, refl, refl, refl, refl, refl)

-- What was typed and chosen in the dialog is lost when the list of servers, which is fetched every 15 seconds, has
-- changed: the form has the fields of the site that is edited again, which it had when it was opened, or those of a new
-- site on the first server, and differs from what it had when it was opened only in that server.
pub run-servers_changed :
    (es : List Event) (ids : List Text) (f : SiteForm)
    → Holds f.site
        (some_or (get_elem? ids 0) [])
        (run (fill f) (es ++ servers_changed ids ∷ [])).form
      × ((run (fill f) (es ++ servers_changed ids ∷ [])).form ≡ record (fill f).form {
        server_id = (run (fill f) (es ++ servers_changed ids ∷ [])).form.server_id;
      })
unfolding fill
run-servers_changed es ids f =
    let again = run-filled es ids (fill f) in
    (
      subst (Holds f.site (some_or (get_elem? ids 0) [])) (sym again) (filled-Holds f.site ids),
      subst (λ i. i ≡ record (filled f.site f.servers) { server_id = i.server_id }) (sym again)
          (same_but_server f.site f.servers (some ids)),
    )
