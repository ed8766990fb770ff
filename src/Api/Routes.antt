-- ===== src/Api/Routes.antt =====
-- The routes that internal/transport/http/router.go registers under `/api/v1`, and how an address meets
-- one: the server takes its path decoded, as `gin` does unless it is told otherwise, and goes through it segment by
-- segment, where a parameter takes any segment that is not empty. The route for
-- development tokens is registered only in development and is left out.
pub mod Filling
pub mod Served
use ventopanel.Base.{
  ◌≡◌, ◌==◌, if◌then◌else◌, Bool, true, false, not, ◌&&◌, ◌||◌, Option, none, some, all, List, [],
  ◌∷◌, Text, text, text_eq, truthy, split_on,
}
use ventopanel.Api.Uri.Paths.{path_unescape}
use ventopanel.Api.Fetch.{Method, get, post, put, patch, delete, ApiCall}

pub data Segment : Type 0 where
  lit : Text → Segment
  param : Segment

pub record Route : Type 0 where
  pub method : Method
  pub pattern : List Segment

abbrev pub same_method : Method → Method → Bool
same_method get get = true
same_method post post = true
same_method put put = true
same_method patch patch = true
same_method delete delete = true
same_method _ _ = false

-- The path of an address, without its query and its fragment.
abbrev pub before_query : Text → Text
before_query [] = []
before_query (c ∷ s) = if c == b'?' || c == b'#' then [] else c ∷ before_query s

-- A segment that a browser takes out of an address.
abbrev pub is_dots : Text → Bool
is_dots s = text_eq s (text ".") || text_eq s (text "..")

abbrev pub matches : List Segment → List Text → Bool
matches [] [] = true
matches [] (s ∷ ss) = false
matches (p ∷ ps) [] = false
matches (lit t ∷ ps) (s ∷ ss) = text_eq t s && matches ps ss
matches (param ∷ ps) (s ∷ ss) = truthy s && matches ps ss

-- A pattern begins with the `/`, before which stands an empty segment. An escape that is malformed is refused, and a path
-- that a browser would change is not counted.
abbrev pub accepts : Route → Method → Text → Bool
accepts r m url =
    same_method r.method m
    && (all (λ s. not (is_dots s)) (split_on b'/' (before_query url))
        && elim (path_unescape (before_query url)) [
          | none ↦ false
          | some path ↦ matches (lit [] ∷ r.pattern) (split_on b'/' path)
        ])

unfoldable pub served_by : List Route → Method → Text → Bool
served_by [] m url = false
served_by (r ∷ rs) m url = accepts r m url || served_by rs m url

abbrev route : Method → List Segment → Route
route m pattern = record { method = m; pattern = pattern }

abbrev pub routes : List Route
routes =
    route get (lit (text "health") ∷ [])
    ∷ route post (lit (text "auth") ∷ lit (text "login") ∷ [])
    ∷ route post (lit (text "auth") ∷ lit (text "mfa") ∷ [])
    ∷ route post (lit (text "auth") ∷ lit (text "register") ∷ [])
    ∷ route get (lit (text "auth") ∷ lit (text "totp") ∷ lit (text "setup") ∷ [])
    ∷ route post (lit (text "auth") ∷ lit (text "totp") ∷ lit (text "enable") ∷ [])
    ∷ route post (lit (text "auth") ∷ lit (text "totp") ∷ lit (text "disable") ∷ [])
    ∷ route get (lit (text "api-tokens") ∷ [])
    ∷ route post (lit (text "api-tokens") ∷ [])
    ∷ route delete (lit (text "api-tokens") ∷ param ∷ [])
    ∷ route get (lit (text "files") ∷ [])
    ∷ route get (lit (text "files") ∷ lit (text "content") ∷ [])
    ∷ route put (lit (text "files") ∷ lit (text "content") ∷ [])
    ∷ route delete (lit (text "files") ∷ [])
    ∷ route post (lit (text "files") ∷ lit (text "dir") ∷ [])
    ∷ route post (lit (text "files") ∷ lit (text "rename") ∷ [])
    ∷ route post (lit (text "files") ∷ lit (text "upload") ∷ [])
    ∷ route get (lit (text "files") ∷ lit (text "download") ∷ [])
    ∷ route post (lit (text "files") ∷ lit (text "compress") ∷ [])
    ∷ route post (lit (text "files") ∷ lit (text "extract") ∷ [])
    ∷ route patch (lit (text "files") ∷ lit (text "permissions") ∷ [])
    ∷ route post (lit (text "servers") ∷ [])
    ∷ route get (lit (text "servers") ∷ [])
    ∷ route get (lit (text "servers") ∷ param ∷ [])
    ∷ route put (lit (text "servers") ∷ param ∷ [])
    ∷ route delete (lit (text "servers") ∷ param ∷ [])
    ∷ route post (lit (text "servers") ∷ param ∷ lit (text "connect") ∷ [])
    ∷ route post (lit (text "servers") ∷ param ∷ lit (text "provision") ∷ [])
    ∷ route post (lit (text "servers") ∷ param ∷ lit (text "ssl") ∷ lit (text "renew") ∷ [])
    ∷ route get (lit (text "servers") ∷ param ∷ lit (text "stats") ∷ [])
    ∷ route get (lit (text "servers") ∷ param ∷ lit (text "sites") ∷ [])
    ∷ route get (lit (text "servers") ∷ param ∷ lit (text "containers") ∷ [])
    ∷ route get (lit (text "servers") ∷ param ∷ lit (text "terminal") ∷ [])
    ∷ route get (lit (text "servers") ∷ param ∷ lit (text "metrics") ∷ lit (text "stream") ∷ [])
    ∷ route get (lit (text "servers") ∷ param ∷ lit (text "logs") ∷ lit (text "stream") ∷ [])
    ∷ route get (lit (text "servers") ∷ param ∷ lit (text "logs") ∷ lit (text "units") ∷ [])
    ∷ route get (lit (text "servers") ∷ param ∷ lit (text "logs") ∷ lit (text "containers") ∷ [])
    ∷ route get (lit (text "servers") ∷ param ∷ lit (text "nginx") ∷ lit (text "status") ∷ [])
    ∷ route get (lit (text "servers") ∷ param ∷ lit (text "nginx") ∷ lit (text "vhosts") ∷ [])
    ∷ route post (lit (text "servers") ∷ param ∷ lit (text "nginx") ∷ lit (text "vhosts") ∷ [])
    ∷ route get
        (lit (text "servers") ∷ param ∷ lit (text "nginx") ∷ lit (text "vhosts") ∷ param ∷ [])
    ∷ route put
        (lit (text "servers") ∷ param ∷ lit (text "nginx") ∷ lit (text "vhosts") ∷ param ∷ [])
    ∷ route delete
        (lit (text "servers") ∷ param ∷ lit (text "nginx") ∷ lit (text "vhosts") ∷ param ∷ [])
    ∷ route post (
        lit (text "servers")
        ∷ param
        ∷ lit (text "nginx")
        ∷ lit (text "vhosts")
        ∷ param
        ∷ lit (text "enable")
        ∷ [])
    ∷ route post (
        lit (text "servers")
        ∷ param
        ∷ lit (text "nginx")
        ∷ lit (text "vhosts")
        ∷ param
        ∷ lit (text "disable")
        ∷ [])
    ∷ route post (lit (text "servers") ∷ param ∷ lit (text "nginx") ∷ lit (text "test") ∷ [])
    ∷ route post (lit (text "servers") ∷ param ∷ lit (text "nginx") ∷ lit (text "reload") ∷ [])
    ∷ route post (
        lit (text "servers")
        ∷ param
        ∷ lit (text "nginx")
        ∷ lit (text "vhosts")
        ∷ param
        ∷ lit (text "ssl")
        ∷ [])
    ∷ route get (lit (text "servers") ∷ lit (text "health") ∷ [])
    ∷ route post (lit (text "sites") ∷ [])
    ∷ route get (lit (text "sites") ∷ [])
    ∷ route get (lit (text "sites") ∷ param ∷ [])
    ∷ route put (lit (text "sites") ∷ param ∷ [])
    ∷ route delete (lit (text "sites") ∷ param ∷ [])
    ∷ route post (lit (text "sites") ∷ param ∷ lit (text "deploy") ∷ [])
    ∷ route get (lit (text "sites") ∷ param ∷ lit (text "ssl") ∷ [])
    ∷ route post (lit (text "sites") ∷ param ∷ lit (text "ssl") ∷ lit (text "renew") ∷ [])
    ∷ route get (lit (text "sites") ∷ param ∷ lit (text "logs") ∷ [])
    ∷ route get (lit (text "sites") ∷ param ∷ lit (text "container") ∷ [])
    ∷ route get (lit (text "sites") ∷ param ∷ lit (text "container") ∷ lit (text "logs") ∷ [])
    ∷ route get (
        lit (text "sites")
        ∷ param
        ∷ lit (text "container")
        ∷ lit (text "logs")
        ∷ lit (text "stream")
        ∷ [])
    ∷ route post (lit (text "sites") ∷ param ∷ lit (text "container") ∷ lit (text "restart") ∷ [])
    ∷ route get (lit (text "sites") ∷ param ∷ lit (text "deploys") ∷ [])
    ∷ route get (lit (text "sites") ∷ param ∷ lit (text "commits") ∷ [])
    ∷ route post (lit (text "sites") ∷ param ∷ lit (text "rollback") ∷ [])
    ∷ route get (lit (text "sites") ∷ param ∷ lit (text "env") ∷ [])
    ∷ route put (lit (text "sites") ∷ param ∷ lit (text "env") ∷ [])
    ∷ route delete (lit (text "sites") ∷ param ∷ lit (text "env") ∷ param ∷ [])
    ∷ route post (lit (text "sites") ∷ param ∷ lit (text "webhook") ∷ lit (text "regenerate") ∷ [])
    ∷ route get (lit (text "sites") ∷ param ∷ lit (text "uptime") ∷ [])
    ∷ route get (lit (text "uptime") ∷ lit (text "overview") ∷ [])
    ∷ route get (lit (text "backups") ∷ [])
    ∷ route post (lit (text "backups") ∷ lit (text "trigger") ∷ [])
    ∷ route get (lit (text "backups") ∷ param ∷ lit (text "download") ∷ [])
    ∷ route post (lit (text "webhook") ∷ param ∷ [])
    ∷ route get (lit (text "teams") ∷ lit (text "access") ∷ [])
    ∷ route get (lit (text "observability") ∷ lit (text "ssl") ∷ [])
    ∷ route get (lit (text "audit") ∷ [])
    ∷ route get (lit (text "audit") ∷ lit (text "status-events") ∷ [])
    ∷ route get (lit (text "sites") ∷ param ∷ lit (text "domains") ∷ [])
    ∷ route post (lit (text "sites") ∷ param ∷ lit (text "domains") ∷ [])
    ∷ route delete (lit (text "sites") ∷ param ∷ lit (text "domains") ∷ param ∷ [])
    ∷ route get (lit (text "settings") ∷ lit (text "notifications") ∷ [])
    ∷ route patch (lit (text "settings") ∷ lit (text "notifications") ∷ [])
    ∷ route post (lit (text "settings") ∷ lit (text "notifications") ∷ lit (text "test") ∷ [])
    ∷ route get (lit (text "settings") ∷ lit (text "backup") ∷ [])
    ∷ route patch (lit (text "settings") ∷ lit (text "backup") ∷ [])
    ∷ route get (lit (text "users") ∷ lit (text "me") ∷ [])
    ∷ route patch (lit (text "users") ∷ lit (text "me") ∷ lit (text "password") ∷ [])
    ∷ route patch (lit (text "users") ∷ lit (text "me") ∷ lit (text "email") ∷ [])
    ∷ route post (lit (text "users") ∷ lit (text "invite") ∷ [])
    ∷ route get (lit (text "users") ∷ [])
    ∷ route patch (lit (text "users") ∷ param ∷ lit (text "role") ∷ [])
    ∷ route delete (lit (text "users") ∷ param ∷ [])
    ∷ route get (lit (text "dashboard") ∷ lit (text "summary") ∷ [])
    ∷ route get (lit (text "dashboard") ∷ lit (text "uptime-trend") ∷ [])
    ∷ route get (lit (text "dashboard") ∷ lit (text "deploy-trend") ∷ [])
    ∷ route get (lit (text "templates") ∷ [])
    ∷ route get (lit (text "templates") ∷ param ∷ [])
    ∷ []

-- Whether the server has a route for a call.
abbrev pub IsServed : {R A : Type 0} → ApiCall R A → Type 0
IsServed call = served_by routes call.options.method call.path ≡ true
