-- ===== src/Api/Routes/Served/Sites.antt =====
-- The calls of Api/Calls/Sites.antt meet the routes of internal/transport/http/router.go.
use ventopanel.Base.{ℕ, refl, none, some, [], ◌∷◌, ◌++◌, Text, text, show}
use ventopanel.Api.Uri.{encode_uri_component}
use ventopanel.Api.Routes.{IsServed}
use ventopanel.Api.Routes.Filling.{IsSegment, IsWord, served, checked, plain, encoded}
use ventopanel.Api.Calls.Sites.{
  SiteInput, fetch_sites, fetch_site_by_id, create_site, update_site, delete_site, deploy_site,
  fetch_site_ssl, renew_site_ssl, fetch_site_logs, fetch_container_info, fetch_container_logs,
  restart_container, fetch_env_vars, upsert_env_var, delete_env_var, regenerate_webhook_token,
  fetch_uptime, fetch_deploy_history, fetch_commits, rollback_to_commit, fetch_site_domains,
  add_site_domain, remove_site_domain,
}

-- The arguments of the calls.
pub record Args : Type 0 where
  pub id : Text
  pub input : SiteInput
  pub limit : ℕ
  pub tail : ℕ
  pub site_id : Text
  pub key : Text
  pub value : Text
  pub commit : Text
  pub domain : Text

-- What the source puts in a path as it is must be a segment, and what it encodes a text.
pub record IsUsable (a : Args) : Type 0 where
  pub id : IsSegment a.id
  pub site_id : IsSegment a.site_id
  pub key : IsWord a.key
  pub domain : IsWord a.domain

abbrev pub AllSites : Type 0 → Args → Type 0
AllSites R a =
    IsServed (fetch_sites {T = R})
    × IsServed (fetch_site_by_id {R = R} id)
    × IsServed (create_site {R = R} input)
    × IsServed (update_site {R = R} id input)
    × IsServed (delete_site {R = R} id)
    × IsServed (deploy_site {R = R} id)
    × IsServed (fetch_site_ssl {R = R} id)
    × IsServed (renew_site_ssl {R = R} id)
    × IsServed (fetch_site_logs {T = R} id limit)
    × IsServed (fetch_container_info {R = R} id)
    × IsServed (fetch_container_logs id tail)
    × IsServed (restart_container {R = R} id)
    × IsServed (fetch_env_vars {T = R} site_id)
    × IsServed (upsert_env_var {R = R} site_id key value)
    × IsServed (delete_env_var {R = R} site_id key)
    × IsServed (regenerate_webhook_token site_id)
    × IsServed (fetch_uptime {R = R} site_id limit)
    × IsServed (fetch_deploy_history {T = R} site_id limit)
    × IsServed (fetch_commits {T = R} site_id)
    × IsServed (rollback_to_commit {R = R} site_id commit)
    × IsServed (fetch_site_domains site_id)
    × IsServed (add_site_domain {R = R} site_id domain)
    × IsServed (remove_site_domain {R = R} site_id domain)
  where
    open a use {id, input, limit, tail, site_id, key, value, commit, domain}

pub sites-served : (R : Type 0) (a : Args) → IsUsable a → AllSites R a
unfolding fetch_sites fetch_site_by_id create_site update_site delete_site deploy_site
    fetch_site_ssl renew_site_ssl fetch_site_logs fetch_container_info fetch_container_logs
    restart_container fetch_env_vars upsert_env_var delete_env_var regenerate_webhook_token
    fetch_uptime fetch_deploy_history fetch_commits rollback_to_commit fetch_site_domains
    add_site_domain remove_site_domain
sites-served R a h = (
  served 50 _ (text "sites") ([]) none refl (refl, tt) (checked (text "sites") refl) tt tt,
  served 51 _ (text "sites") (id ∷ []) none refl (refl, tt) (checked (text "sites") refl)
      (plain _ h.id, tt) tt,
  served 49 _ (text "sites") ([]) none refl (refl, tt) (checked (text "sites") refl) tt tt,
  served 52 _ (text "sites") (id ∷ []) none refl (refl, tt) (checked (text "sites") refl)
      (plain _ h.id, tt) tt,
  served 53 _ (text "sites") (id ∷ []) none refl (refl, tt) (checked (text "sites") refl)
      (plain _ h.id, tt) tt,
  served 54 _ (text "sites") (id ∷ text "deploy" ∷ []) none refl (refl, (refl, tt))
      (checked (text "sites") refl) (plain _ h.id, (checked (text "deploy") refl, tt)) tt,
  served 55 _ (text "sites") (id ∷ text "ssl" ∷ []) none refl (refl, (refl, tt))
      (checked (text "sites") refl) (plain _ h.id, (checked (text "ssl") refl, tt)) tt,
  served 56 _ (text "sites") (id ∷ text "ssl" ∷ text "renew" ∷ []) none refl
      (refl, (refl, (refl, tt))) (checked (text "sites") refl)
      (plain _ h.id, (checked (text "ssl") refl, (checked (text "renew") refl, tt))) tt,
  served 57 _ (text "sites") (id ∷ text "logs" ∷ []) (some (text "?limit=" ++ show limit)) refl
      (refl, (refl, tt)) (checked (text "sites") refl)
      (plain _ h.id, (checked (text "logs") refl, tt)) refl,
  served 58 _ (text "sites") (id ∷ text "container" ∷ []) none refl (refl, (refl, tt))
      (checked (text "sites") refl) (plain _ h.id, (checked (text "container") refl, tt)) tt,
  served 59 _ (text "sites") (id ∷ text "container" ∷ text "logs" ∷ [])
      (some (text "?tail=" ++ show tail)) refl (refl, (refl, (refl, tt)))
      (checked (text "sites") refl)
      (plain _ h.id, (checked (text "container") refl, (checked (text "logs") refl, tt))) refl,
  served 61 _ (text "sites") (id ∷ text "container" ∷ text "restart" ∷ []) none refl
      (refl, (refl, (refl, tt))) (checked (text "sites") refl)
      (plain _ h.id, (checked (text "container") refl, (checked (text "restart") refl, tt))) tt,
  served 65 _ (text "sites") (site_id ∷ text "env" ∷ []) none refl (refl, (refl, tt))
      (checked (text "sites") refl) (plain _ h.site_id, (checked (text "env") refl, tt)) tt,
  served 66 _ (text "sites") (site_id ∷ text "env" ∷ []) none refl (refl, (refl, tt))
      (checked (text "sites") refl) (plain _ h.site_id, (checked (text "env") refl, tt)) tt,
  served 67 _ (text "sites") (site_id ∷ text "env" ∷ encode_uri_component key ∷ []) none refl
      (refl, (refl, tt)) (checked (text "sites") refl)
      (plain _ h.site_id, (checked (text "env") refl, (encoded key h.key, tt))) tt,
  served 68 _ (text "sites") (site_id ∷ text "webhook" ∷ text "regenerate" ∷ []) none refl
      (refl, (refl, (refl, tt))) (checked (text "sites") refl)
      (plain _ h.site_id, (checked (text "webhook") refl, (checked (text "regenerate") refl, tt)))
      tt,
  served 69 _ (text "sites") (site_id ∷ text "uptime" ∷ []) (some (text "?limit=" ++ show limit))
      refl (refl, (refl, tt)) (checked (text "sites") refl)
      (plain _ h.site_id, (checked (text "uptime") refl, tt)) refl,
  served 62 _ (text "sites") (site_id ∷ text "deploys" ∷ []) (some (text "?limit=" ++ show limit))
      refl (refl, (refl, tt)) (checked (text "sites") refl)
      (plain _ h.site_id, (checked (text "deploys") refl, tt)) refl,
  served 63 _ (text "sites") (site_id ∷ text "commits" ∷ []) none refl (refl, (refl, tt))
      (checked (text "sites") refl) (plain _ h.site_id, (checked (text "commits") refl, tt)) tt,
  served 64 _ (text "sites") (site_id ∷ text "rollback" ∷ []) none refl (refl, (refl, tt))
      (checked (text "sites") refl) (plain _ h.site_id, (checked (text "rollback") refl, tt)) tt,
  served 79 _ (text "sites") (site_id ∷ text "domains" ∷ []) none refl (refl, (refl, tt))
      (checked (text "sites") refl) (plain _ h.site_id, (checked (text "domains") refl, tt)) tt,
  served 80 _ (text "sites") (site_id ∷ text "domains" ∷ []) none refl (refl, (refl, tt))
      (checked (text "sites") refl) (plain _ h.site_id, (checked (text "domains") refl, tt)) tt,
  served 81 _ (text "sites") (site_id ∷ text "domains" ∷ encode_uri_component domain ∷ []) none refl
      (refl, (refl, tt)) (checked (text "sites") refl)
      (plain _ h.site_id, (checked (text "domains") refl, (encoded domain h.domain, tt))) tt,
)
  where
    open a use {id, input, limit, tail, site_id, key, value, commit, domain}
