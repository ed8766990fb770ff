-- ===== src/Api/Calls/Servers.antt =====
-- The calls of frontend/lib/api.ts for servers, their statistics and their logs.
use ventopanel.Base.{ℕ, Option, none, some, List, [], ◌∷◌, ◌++◌, Text, text}
use ventopanel.Api.Fetch.{
  post, put, delete, str, num, Body, ApiCall, plain, with_method, with_body, ListResponse,
  items_or_empty, whole, given, status_or,
}

pub record ServerInput : Type 0 where
  pub name : Text
  pub host : Text
  pub port : ℕ
  pub provider : Text
  pub ssh_user : Text
  pub ssh_password : Text
  pub status : Option Text

-- The object that is sent; `JSON.stringify` leaves out a status that is undefined.
abbrev pub server_body : ServerInput → Option Text → Body
server_body i status =
    (text "name", str i.name)
    ∷ (text "host", str i.host)
    ∷ (text "port", num i.port)
    ∷ (text "provider", str i.provider)
    ∷ (text "ssh_user", str i.ssh_user)
    ∷ (text "ssh_password", str i.ssh_password)
    ∷ given (text "status") status

pub record UnitsResponse (T : Type 0) : Type 0 where
  pub units : Option (List T)

pub record ContainersResponse (T : Type 0) : Type 0 where
  pub containers : Option (List T)

abbrev units_or_empty : {T : Type 0} → Option (UnitsResponse T) → Option (List T)
units_or_empty none = none
units_or_empty (some d) = elim d.units [ none ↦ some [] | some ts ↦ some ts ]

abbrev containers_or_empty : {T : Type 0} → Option (ContainersResponse T) → Option (List T)
containers_or_empty none = none
containers_or_empty (some d) = elim d.containers [ none ↦ some [] | some ts ↦ some ts ]

unfoldable pub fetch_servers : {T : Type 0} → ApiCall (ListResponse T) (List T)
fetch_servers = record { path = text "/servers"; options = plain; finish = items_or_empty }

unfoldable pub create_server : {R : Type 0} → ServerInput → ApiCall R (Option R)
create_server input = record {
  path = text "/servers";
  options = with_body post (server_body input (some (status_or (text "pending") input.status)));
  finish = whole;
}

unfoldable pub update_server : {R : Type 0} → Text → ServerInput → ApiCall R (Option R)
update_server id input = record {
  path = text "/servers/" ++ id;
  options = with_body put (server_body input input.status);
  finish = whole;
}

unfoldable pub delete_server : {R : Type 0} → Text → ApiCall R (Option R)
delete_server id = record {
  path = text "/servers/" ++ id;
  options = with_method delete;
  finish = whole;
}

unfoldable pub fetch_server_stats : {R : Type 0} → Text → ApiCall R (Option R)
fetch_server_stats id = record {
  path = text "/servers/" ++ (id ++ text "/stats");
  options = plain;
  finish = whole;
}

unfoldable pub connect_server : {R : Type 0} → Text → ApiCall R (Option R)
connect_server id = record {
  path = text "/servers/" ++ (id ++ text "/connect");
  options = with_method post;
  finish = whole;
}

unfoldable pub provision_server : {R : Type 0} → Text → ApiCall R (Option R)
provision_server id = record {
  path = text "/servers/" ++ (id ++ text "/provision");
  options = with_method post;
  finish = whole;
}

unfoldable pub fetch_server_sites : {T : Type 0} → Text → ApiCall (ListResponse T) (List T)
fetch_server_sites server_id = record {
  path = text "/servers/" ++ (server_id ++ text "/sites");
  options = plain;
  finish = items_or_empty;
}

unfoldable pub fetch_server_containers : {T : Type 0} → Text → ApiCall (ListResponse T) (List T)
fetch_server_containers server_id = record {
  path = text "/servers/" ++ (server_id ++ text "/containers");
  options = plain;
  finish = items_or_empty;
}

unfoldable pub fetch_log_units : {T : Type 0} → Text → ApiCall (UnitsResponse T) (List T)
fetch_log_units server_id = record {
  path = text "/servers/" ++ (server_id ++ text "/logs/units");
  options = plain;
  finish = units_or_empty;
}

unfoldable pub fetch_log_containers : {T : Type 0} → Text → ApiCall (ContainersResponse T) (List T)
fetch_log_containers server_id = record {
  path = text "/servers/" ++ (server_id ++ text "/logs/containers");
  options = plain;
  finish = containers_or_empty;
}
