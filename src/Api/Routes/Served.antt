-- ===== src/Api/Routes/Served.antt =====
-- Every call of frontend/lib/api.ts that goes through `apiFetch` has a route in
-- internal/transport/http/router.go.
mod Tails
pub mod Servers
pub mod Sites
pub mod Account
pub mod Panel
pub mod Files
pub mod Nginx
mod Tests

-- The arguments of every call.
pub record Args : Type 0 where
  pub servers : Servers.Args
  pub sites : Sites.Args
  pub account : Account.Args
  pub panel : Panel.Args
  pub files : Files.Args
  pub nginx : Nginx.Args

-- An identifier that the source puts into a path as it is must be one segment of plain characters, and a name that it
-- encodes must not be empty, hold a `/`, or be `.` or `..`.
pub record IsUsable (a : Args) : Type 0 where
  pub servers : Servers.IsUsable a.servers
  pub sites : Sites.IsUsable a.sites
  pub account : Account.IsUsable a.account
  pub panel : Panel.IsUsable a.panel
  pub nginx : Nginx.IsUsable a.nginx
