-- ===== src/Monitor/Address.antt =====
-- The address of the metrics in frontend/app/(dashboard)/monitor/page.tsx. The two variables of the environment and
-- the window's origin are arguments; the origin is the empty text while the server renders the page.
use ventopanel.Base.{Option, none, some, [], ◌++◌, Text, text}
use ventopanel.Api.Uri.{encode_uri_component}
use ventopanel.Logs.Address.{setting, base_or}

-- `getApiBaseUrl`
unfoldable pub get_api_base_url : Text → Option Text → Option Text → Text
get_api_base_url origin ws base = base_or origin (setting ws) (setting base)

-- `getToken() ?? ""`
abbrev pub token_or_empty : Option Text → Text
token_or_empty none = []
token_or_empty (some t) = t

-- The address without the base and `/api/v1`.
abbrev pub metrics_path : Text → Option Text → Text
metrics_path sid token =
    text "/servers/"
    ++ (sid ++ (text "/metrics/stream?token=" ++ encode_uri_component (token_or_empty token)))

-- `sseUrl`, of `start` and of `openStream`
unfoldable pub metrics_url : Text → Option Text → Option Text → Text → Option Text → Text
metrics_url origin ws base sid token =
    get_api_base_url origin ws base ++ (text "/api/v1" ++ metrics_path sid token)
