-- ===== src/Access.antt =====
-- frontend/hooks/use-auth.ts and frontend/components/nav.tsx: what a role may do and see, and logging out.
pub mod Logout
pub mod Layout
mod Tests
use ventopanel.Base.{
  if◌then◌else◌, Bool, true, false, not, ◌&&◌, ◌||◌, Option, none, some, List, [], ◌∷◌, Text, text,
  text_eq, truthy, keep_if,
}
use ventopanel.Api.Session.{Browser, TokenPayload, get_role, clear_token}

pub record AuthInfo : Type 0 where
  pub role : Text
  pub is_admin : Bool
  pub is_editor : Bool
  pub can_write : Bool

abbrev pub auth_info : Text → AuthInfo
auth_info role = record {
  role = role;
  is_admin = text_eq role (text "admin");
  is_editor = text_eq role (text "editor");
  can_write = text_eq role (text "admin") || text_eq role (text "editor");
}

pub record NavLink : Type 0 where
  pub href : Text
  pub admin_only : Bool

abbrev pub open_link : Text → NavLink
open_link href = record { href = href; admin_only = false }

abbrev pub admin_link : Text → NavLink
admin_link href = record { href = href; admin_only = true }

abbrev pub links : List NavLink
links =
    open_link (text "/")
    ∷ open_link (text "/servers")
    ∷ open_link (text "/sites")
    ∷ open_link (text "/uptime")
    ∷ open_link (text "/observability")
    ∷ open_link (text "/templates")
    ∷ open_link (text "/backups")
    ∷ open_link (text "/audit")
    ∷ open_link (text "/files")
    ∷ open_link (text "/terminal")
    ∷ open_link (text "/monitor")
    ∷ open_link (text "/logs")
    ∷ open_link (text "/nginx")
    ∷ admin_link (text "/users")
    ∷ admin_link (text "/security")
    ∷ admin_link (text "/settings")
    ∷ []

module _ (decode : Text → Option TokenPayload) where
  -- `useAuth`
  unfoldable pub use_auth : Browser → AuthInfo
  use_auth b = auth_info (if b.in_browser then get_role decode b else [])

  -- `visibleLinks`
  unfoldable pub visible_links : Browser → List NavLink
  visible_links b =
      let is_admin = b.in_browser && text_eq (get_role decode b) (text "admin") in
      keep_if (λ link. not link.admin_only || is_admin) links

  -- The effect of `useAdminGuard`: `router.replace("/")` for a role that is known and not admin.
  unfoldable pub use_admin_guard : Browser → Browser
  use_admin_guard b =
      if b.in_browser
        && truthy (get_role decode b)
        && not (text_eq (get_role decode b) (text "admin"))
      then record b { location = text "/" }
      else b

-- `handleLogout`
unfoldable pub handle_logout : Browser → Browser
unfolding clear_token
handle_logout b = record (clear_token b) { location = text "/login" }
