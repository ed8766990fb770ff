-- ===== src/Api/Calls/Sites.antt =====
-- The calls of frontend/lib/api.ts for sites: deployment, certificates, containers, variables, domains.
use ventopanel.Base.{ℕ, Option, none, some, List, [], ◌∷◌, ◌++◌, Text, text, show}
use ventopanel.Api.Uri.{encode_uri_component}
use ventopanel.Api.Fetch.{
  post, put, delete, str, Body, ApiCall, plain, with_method, with_body, ListResponse,
  items_or_empty, whole, ignored, given, status_or,
}

pub record SiteInput : Type 0 where
  pub server_id : Text
  pub name : Text
  pub domain : Text
  pub runtime : Text
  pub repository_url : Text
  pub branch : Text
  pub healthcheck_path : Option Text
  pub template_id : Option Text
  pub status : Option Text

-- The object that is sent; `JSON.stringify` leaves out the fields that are undefined.
abbrev pub site_body : SiteInput → Option Text → Body
site_body i status =
    (text "server_id", str i.server_id)
    ∷ (text "name", str i.name)
    ∷ (text "domain", str i.domain)
    ∷ (text "runtime", str i.runtime)
    ∷ (text "repository_url", str i.repository_url)
    ∷ (text "branch", str i.branch)
    ∷ (given (text "healthcheck_path") i.healthcheck_path
        ++ (given (text "template_id") i.template_id ++ given (text "status") status))

pub record LogsResponse : Type 0 where
  pub logs : Option Text

pub record WebhookResponse : Type 0 where
  pub webhook_token : Text

abbrev logs_or_empty : Option LogsResponse → Option Text
logs_or_empty none = none
logs_or_empty (some d) = elim d.logs [ none ↦ some [] | some t ↦ some t ]

abbrev webhook_token_of : Option WebhookResponse → Option Text
webhook_token_of none = none
webhook_token_of (some d) = some d.webhook_token

unfoldable pub fetch_sites : {T : Type 0} → ApiCall (ListResponse T) (List T)
fetch_sites = record { path = text "/sites"; options = plain; finish = items_or_empty }

unfoldable pub fetch_site_by_id : {R : Type 0} → Text → ApiCall R (Option R)
fetch_site_by_id id = record { path = text "/sites/" ++ id; options = plain; finish = whole }

unfoldable pub create_site : {R : Type 0} → SiteInput → ApiCall R (Option R)
create_site input = record {
  path = text "/sites";
  options = with_body post (site_body input (some (status_or (text "draft") input.status)));
  finish = whole;
}

unfoldable pub update_site : {R : Type 0} → Text → SiteInput → ApiCall R (Option R)
update_site id input = record {
  path = text "/sites/" ++ id;
  options = with_body put (site_body input input.status);
  finish = whole;
}

unfoldable pub delete_site : {R : Type 0} → Text → ApiCall R (Option R)
delete_site id = record {
  path = text "/sites/" ++ id;
  options = with_method delete;
  finish = whole;
}

unfoldable pub deploy_site : {R : Type 0} → Text → ApiCall R (Option R)
deploy_site id = record {
  path = text "/sites/" ++ (id ++ text "/deploy");
  options = with_method post;
  finish = whole;
}

unfoldable pub fetch_site_ssl : {R : Type 0} → Text → ApiCall R (Option R)
fetch_site_ssl id = record {
  path = text "/sites/" ++ (id ++ text "/ssl");
  options = plain;
  finish = whole;
}

unfoldable pub renew_site_ssl : {R : Type 0} → Text → ApiCall R (Option R)
renew_site_ssl id = record {
  path = text "/sites/" ++ (id ++ text "/ssl/renew");
  options = with_method post;
  finish = whole;
}

unfoldable pub fetch_site_logs : {T : Type 0} → Text → ℕ → ApiCall (ListResponse T) (List T)
fetch_site_logs id limit = record {
  path = text "/sites/" ++ (id ++ (text "/logs?limit=" ++ show limit));
  options = plain;
  finish = items_or_empty;
}

unfoldable pub fetch_container_info : {R : Type 0} → Text → ApiCall R (Option R)
fetch_container_info id = record {
  path = text "/sites/" ++ (id ++ text "/container");
  options = plain;
  finish = whole;
}

unfoldable pub fetch_container_logs : Text → ℕ → ApiCall LogsResponse Text
fetch_container_logs id tail = record {
  path = text "/sites/" ++ (id ++ (text "/container/logs?tail=" ++ show tail));
  options = plain;
  finish = logs_or_empty;
}

unfoldable pub restart_container : {R : Type 0} → Text → ApiCall R (Unit {0})
restart_container id = record {
  path = text "/sites/" ++ (id ++ text "/container/restart");
  options = with_method post;
  finish = ignored;
}

unfoldable pub fetch_env_vars : {T : Type 0} → Text → ApiCall (ListResponse T) (List T)
fetch_env_vars site_id = record {
  path = text "/sites/" ++ (site_id ++ text "/env");
  options = plain;
  finish = items_or_empty;
}

unfoldable pub upsert_env_var : {R : Type 0} → Text → Text → Text → ApiCall R (Unit {0})
upsert_env_var site_id key value = record {
  path = text "/sites/" ++ (site_id ++ text "/env");
  options = with_body put ((text "key", str key) ∷ (text "value", str value) ∷ []);
  finish = ignored;
}

unfoldable pub delete_env_var : {R : Type 0} → Text → Text → ApiCall R (Unit {0})
delete_env_var site_id key = record {
  path = text "/sites/" ++ (site_id ++ (text "/env/" ++ encode_uri_component key));
  options = with_method delete;
  finish = ignored;
}

unfoldable pub regenerate_webhook_token : Text → ApiCall WebhookResponse Text
regenerate_webhook_token site_id = record {
  path = text "/sites/" ++ (site_id ++ text "/webhook/regenerate");
  options = with_method post;
  finish = webhook_token_of;
}

unfoldable pub fetch_uptime : {R : Type 0} → Text → ℕ → ApiCall R (Option R)
fetch_uptime site_id limit = record {
  path = text "/sites/" ++ (site_id ++ (text "/uptime?limit=" ++ show limit));
  options = plain;
  finish = whole;
}

unfoldable pub fetch_deploy_history : {T : Type 0} → Text → ℕ → ApiCall (ListResponse T) (List T)
fetch_deploy_history site_id limit = record {
  path = text "/sites/" ++ (site_id ++ (text "/deploys?limit=" ++ show limit));
  options = plain;
  finish = items_or_empty;
}

unfoldable pub fetch_commits : {T : Type 0} → Text → ApiCall (ListResponse T) (List T)
fetch_commits site_id = record {
  path = text "/sites/" ++ (site_id ++ text "/commits");
  options = plain;
  finish = items_or_empty;
}

unfoldable pub rollback_to_commit : {R : Type 0} → Text → Text → ApiCall R (Unit {0})
rollback_to_commit site_id commit = record {
  path = text "/sites/" ++ (site_id ++ text "/rollback");
  options = with_body post ((text "commit", str commit) ∷ []);
  finish = ignored;
}

unfoldable pub fetch_site_domains : Text → ApiCall (ListResponse Text) (List Text)
fetch_site_domains site_id = record {
  path = text "/sites/" ++ (site_id ++ text "/domains");
  options = plain;
  finish = items_or_empty;
}

unfoldable pub add_site_domain : {R : Type 0} → Text → Text → ApiCall R (Unit {0})
add_site_domain site_id domain = record {
  path = text "/sites/" ++ (site_id ++ text "/domains");
  options = with_body post ((text "domain", str domain) ∷ []);
  finish = ignored;
}

unfoldable pub remove_site_domain : {R : Type 0} → Text → Text → ApiCall R (Unit {0})
remove_site_domain site_id domain = record {
  path = text "/sites/" ++ (site_id ++ (text "/domains/" ++ encode_uri_component domain));
  options = with_method delete;
  finish = ignored;
}
