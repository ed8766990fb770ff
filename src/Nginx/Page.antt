-- ===== src/Nginx/Page.antt =====
-- The page and the other dialogs of frontend/app/(dashboard)/nginx/page.tsx.
use ventopanel.Base.{
  Bool, true, not, ◌&&◌, if◌then◌else◌, Option, none, some, List, [], ◌∷◌, ◌++◌, Text, truthy,
}
use ventopanel.Api.Fetch.{ApiCall}
use ventopanel.Api.Calls.Nginx.{issue_nginx_cert}

-- The effect that selects the first of the servers.
unfoldable pub select_first : List Text → Text → Text
select_first [] server_id = server_id
select_first (first ∷ servers) server_id = if truthy server_id then server_id else first

-- `CreateModal`, with the names whose creation was sent. `pending` is the `isPending` of the mutation.
pub record CreateModal : Type 0 where
  pub name : Text
  pub pending : Bool
  pub is_open : Bool
  pub sent : List Text

abbrev pub create : CreateModal → CreateModal
create m = record m { pending = true; sent = m.sent ++ m.name ∷ [] }

unfoldable pub click_create : CreateModal → CreateModal
click_create m = if truthy m.name && not m.pending then create m else m

-- Enter in the field does not look at `isPending`.
unfoldable pub press_enter : CreateModal → CreateModal
press_enter m = if truthy m.name then create m else m

-- `email || undefined`
abbrev pub email_or_none : Text → Option Text
email_or_none email = if truthy email then some email else none

-- What `SSLModal` sends.
unfoldable pub cert_call : {R : Type 0} → Text → Text → Text → Text → ApiCall R (Option R)
cert_call server_id vhost_name domain email =
    issue_nginx_cert server_id vhost_name domain (email_or_none email)
