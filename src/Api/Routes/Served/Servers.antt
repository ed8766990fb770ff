-- ===== src/Api/Routes/Served/Servers.antt =====
-- The calls of Api/Calls/Servers.antt meet the routes of internal/transport/http/router.go.
use ventopanel.Base.{refl, none, [], ◌∷◌, Text, text}
use ventopanel.Api.Routes.{IsServed}
use ventopanel.Api.Routes.Filling.{IsSegment, served, checked, plain}
use ventopanel.Api.Calls.Servers.{
  ServerInput, fetch_servers, create_server, update_server, delete_server, fetch_server_stats,
  connect_server, provision_server, fetch_server_sites, fetch_server_containers, fetch_log_units,
  fetch_log_containers,
}

-- The arguments of the calls.
pub record Args : Type 0 where
  pub input : ServerInput
  pub id : Text
  pub server_id : Text

-- What the source puts in a path as it is must be a segment, and what it encodes a text.
pub record IsUsable (a : Args) : Type 0 where
  pub id : IsSegment a.id
  pub server_id : IsSegment a.server_id

abbrev pub AllServers : Type 0 → Args → Type 0
AllServers R a =
    IsServed (fetch_servers {T = R})
    × IsServed (create_server {R = R} input)
    × IsServed (update_server {R = R} id input)
    × IsServed (delete_server {R = R} id)
    × IsServed (fetch_server_stats {R = R} id)
    × IsServed (connect_server {R = R} id)
    × IsServed (provision_server {R = R} id)
    × IsServed (fetch_server_sites {T = R} server_id)
    × IsServed (fetch_server_containers {T = R} server_id)
    × IsServed (fetch_log_units {T = R} server_id)
    × IsServed (fetch_log_containers {T = R} server_id)
  where
    open a use {input, id, server_id}

pub servers-served : (R : Type 0) (a : Args) → IsUsable a → AllServers R a
unfolding fetch_servers create_server update_server delete_server fetch_server_stats connect_server
    provision_server fetch_server_sites fetch_server_containers fetch_log_units fetch_log_containers
servers-served R a h = (
  served 22 _ (text "servers") ([]) none refl (refl, tt) (checked (text "servers") refl) tt tt,
  served 21 _ (text "servers") ([]) none refl (refl, tt) (checked (text "servers") refl) tt tt,
  served 24 _ (text "servers") (id ∷ []) none refl (refl, tt) (checked (text "servers") refl)
      (plain _ h.id, tt) tt,
  served 25 _ (text "servers") (id ∷ []) none refl (refl, tt) (checked (text "servers") refl)
      (plain _ h.id, tt) tt,
  served 29 _ (text "servers") (id ∷ text "stats" ∷ []) none refl (refl, (refl, tt))
      (checked (text "servers") refl) (plain _ h.id, (checked (text "stats") refl, tt)) tt,
  served 26 _ (text "servers") (id ∷ text "connect" ∷ []) none refl (refl, (refl, tt))
      (checked (text "servers") refl) (plain _ h.id, (checked (text "connect") refl, tt)) tt,
  served 27 _ (text "servers") (id ∷ text "provision" ∷ []) none refl (refl, (refl, tt))
      (checked (text "servers") refl) (plain _ h.id, (checked (text "provision") refl, tt)) tt,
  served 30 _ (text "servers") (server_id ∷ text "sites" ∷ []) none refl (refl, (refl, tt))
      (checked (text "servers") refl) (plain _ h.server_id, (checked (text "sites") refl, tt)) tt,
  served 31 _ (text "servers") (server_id ∷ text "containers" ∷ []) none refl (refl, (refl, tt))
      (checked (text "servers") refl) (plain _ h.server_id, (checked (text "containers") refl, tt))
      tt,
  served 35 _ (text "servers") (server_id ∷ text "logs" ∷ text "units" ∷ []) none refl
      (refl, (refl, (refl, tt))) (checked (text "servers") refl)
      (plain _ h.server_id, (checked (text "logs") refl, (checked (text "units") refl, tt))) tt,
  served 36 _ (text "servers") (server_id ∷ text "logs" ∷ text "containers" ∷ []) none refl
      (refl, (refl, (refl, tt))) (checked (text "servers") refl)
      (plain _ h.server_id, (checked (text "logs") refl, (checked (text "containers") refl, tt)))
      tt,
)
  where
    open a use {input, id, server_id}
