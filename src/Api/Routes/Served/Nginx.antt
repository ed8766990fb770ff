-- ===== src/Api/Routes/Served/Nginx.antt =====
-- The calls of Api/Calls/Nginx.antt meet the routes of internal/transport/http/router.go.
use ventopanel.Base.{refl, Option, none, [], ◌∷◌, Text, text}
use ventopanel.Api.Uri.{encode_uri_component}
use ventopanel.Api.Routes.{IsServed}
use ventopanel.Api.Routes.Filling.{IsSegment, IsWord, served, checked, plain, encoded}
use ventopanel.Api.Calls.Nginx.{
  fetch_nginx_status, fetch_nginx_vhosts, fetch_nginx_vhost, save_nginx_vhost, create_nginx_vhost,
  delete_nginx_vhost, enable_nginx_vhost, disable_nginx_vhost, test_nginx_config, reload_nginx,
  issue_nginx_cert,
}

-- The arguments of the calls.
pub record Args : Type 0 where
  pub server_id : Text
  pub name : Text
  pub content : Text
  pub starting_content : Option Text
  pub domain : Text
  pub email : Option Text

-- What the source puts in a path as it is must be a segment, and what it encodes a text.
pub record IsUsable (a : Args) : Type 0 where
  pub server_id : IsSegment a.server_id
  pub name : IsWord a.name

abbrev pub AllNginx : Type 0 → Args → Type 0
AllNginx R a =
    IsServed (fetch_nginx_status {R = R} server_id)
    × IsServed (fetch_nginx_vhosts {R = R} server_id)
    × IsServed (fetch_nginx_vhost {R = R} server_id name)
    × IsServed (save_nginx_vhost {R = R} server_id name content)
    × IsServed (create_nginx_vhost {R = R} server_id name starting_content)
    × IsServed (delete_nginx_vhost {R = R} server_id name)
    × IsServed (enable_nginx_vhost {R = R} server_id name)
    × IsServed (disable_nginx_vhost {R = R} server_id name)
    × IsServed (test_nginx_config {R = R} server_id)
    × IsServed (reload_nginx {R = R} server_id)
    × IsServed (issue_nginx_cert {R = R} server_id name domain email)
  where
    open a use {server_id, name, content, starting_content, domain, email}

pub nginx-served : (R : Type 0) (a : Args) → IsUsable a → AllNginx R a
unfolding fetch_nginx_status fetch_nginx_vhosts fetch_nginx_vhost save_nginx_vhost
    create_nginx_vhost delete_nginx_vhost enable_nginx_vhost disable_nginx_vhost test_nginx_config
    reload_nginx issue_nginx_cert
nginx-served R a h = (
  served 37 _ (text "servers") (server_id ∷ text "nginx" ∷ text "status" ∷ []) none refl
      (refl, (refl, (refl, tt))) (checked (text "servers") refl)
      (plain _ h.server_id, (checked (text "nginx") refl, (checked (text "status") refl, tt))) tt,
  served 38 _ (text "servers") (server_id ∷ text "nginx" ∷ text "vhosts" ∷ []) none refl
      (refl, (refl, (refl, tt))) (checked (text "servers") refl)
      (plain _ h.server_id, (checked (text "nginx") refl, (checked (text "vhosts") refl, tt))) tt,
  served 40 _ (text "servers")
      (server_id ∷ text "nginx" ∷ text "vhosts" ∷ encode_uri_component name ∷ []) none refl
      (refl, (refl, (refl, tt))) (checked (text "servers") refl)
      (
        plain _ h.server_id,
        (checked (text "nginx") refl, (checked (text "vhosts") refl, (encoded name h.name, tt))),
      )
      tt,
  served 41 _ (text "servers")
      (server_id ∷ text "nginx" ∷ text "vhosts" ∷ encode_uri_component name ∷ []) none refl
      (refl, (refl, (refl, tt))) (checked (text "servers") refl)
      (
        plain _ h.server_id,
        (checked (text "nginx") refl, (checked (text "vhosts") refl, (encoded name h.name, tt))),
      )
      tt,
  served 39 _ (text "servers") (server_id ∷ text "nginx" ∷ text "vhosts" ∷ []) none refl
      (refl, (refl, (refl, tt))) (checked (text "servers") refl)
      (plain _ h.server_id, (checked (text "nginx") refl, (checked (text "vhosts") refl, tt))) tt,
  served 42 _ (text "servers")
      (server_id ∷ text "nginx" ∷ text "vhosts" ∷ encode_uri_component name ∷ []) none refl
      (refl, (refl, (refl, tt))) (checked (text "servers") refl)
      (
        plain _ h.server_id,
        (checked (text "nginx") refl, (checked (text "vhosts") refl, (encoded name h.name, tt))),
      )
      tt,
  served 43 _ (text "servers")
      (server_id ∷ text "nginx" ∷ text "vhosts" ∷ encode_uri_component name ∷ text "enable" ∷ [])
      none refl (refl, (refl, (refl, (refl, tt)))) (checked (text "servers") refl)
      (
        plain _ h.server_id,
        (
          checked (text "nginx") refl,
          (checked (text "vhosts") refl, (encoded name h.name, (checked (text "enable") refl, tt))),
        ),
      )
      tt,
  served 44 _ (text "servers")
      (server_id ∷ text "nginx" ∷ text "vhosts" ∷ encode_uri_component name ∷ text "disable" ∷ [])
      none refl (refl, (refl, (refl, (refl, tt)))) (checked (text "servers") refl)
      (
        plain _ h.server_id,
        (
          checked (text "nginx") refl,
          (
            checked (text "vhosts") refl,
            (encoded name h.name, (checked (text "disable") refl, tt)),
          ),
        ),
      )
      tt,
  served 45 _ (text "servers") (server_id ∷ text "nginx" ∷ text "test" ∷ []) none refl
      (refl, (refl, (refl, tt))) (checked (text "servers") refl)
      (plain _ h.server_id, (checked (text "nginx") refl, (checked (text "test") refl, tt))) tt,
  served 46 _ (text "servers") (server_id ∷ text "nginx" ∷ text "reload" ∷ []) none refl
      (refl, (refl, (refl, tt))) (checked (text "servers") refl)
      (plain _ h.server_id, (checked (text "nginx") refl, (checked (text "reload") refl, tt))) tt,
  served 47 _ (text "servers")
      (server_id ∷ text "nginx" ∷ text "vhosts" ∷ encode_uri_component name ∷ text "ssl" ∷ []) none
      refl (refl, (refl, (refl, (refl, tt)))) (checked (text "servers") refl)
      (
        plain _ h.server_id,
        (
          checked (text "nginx") refl,
          (checked (text "vhosts") refl, (encoded name h.name, (checked (text "ssl") refl, tt))),
        ),
      )
      tt,
)
  where
    open a use {server_id, name, content, starting_content, domain, email}
