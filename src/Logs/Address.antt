-- ===== src/Logs/Address.antt =====
-- The addresses of frontend/app/(dashboard)/logs/page.tsx: the one of the stream and the one that is asked
-- first. The two variables of the environment are arguments.
use ventopanel.Base.{
  if◌then◌else◌, Option, none, some, List, [], ◌∷◌, ◌++◌, Text, text, text_eq, truthy, trim, take,
  drop,
}
use ventopanel.Api.Uri.{encode_uri_component}
use ventopanel.Api.Uri.Forms.{form_encode}
use ventopanel.Files.Paths.{strip_last}

pub data Source : Type 0 where
  journal docker file : Source

abbrev pub source_text : Source → Text
source_text journal = text "journal"
source_text docker = text "docker"
source_text file = text "file"

pub record LogQuery : Type 0 where
  pub source : Source
  pub lines : Text
  pub unit : Text
  pub container : Text
  pub file_path : Text

-- `s || d`
abbrev pub text_or : Text → Text → Text
text_or d s = if truthy s then s else d

-- The parameters in the order in which they are set.
abbrev pub log_parameters : LogQuery → List (Text × Text)
log_parameters q =
    (text "source", source_text q.source) ∷ (text "lines", q.lines) ∷ (elim q.source [
      | journal ↦ (text "unit", text_or (text "_all") q.unit) ∷ []
      | docker ↦ (text "container", q.container) ∷ []
      | file ↦ (text "path", q.file_path) ∷ []
    ])

-- `String(params)`
abbrev pub params_text : List (Text × Text) → Text
params_text [] = []
params_text (p ∷ []) = form_encode p.0 ++ b'=' ∷ form_encode p.1
params_text (p ∷ q ∷ ps) =
    (form_encode p.0 ++ b'=' ∷ form_encode p.1) ++ b'&' ∷ params_text (q ∷ ps)

-- `ws.replace(/^ws(s?):\/\//, "http$1://")`
abbrev pub http_of_ws : Text → Text
http_of_ws s =
    if text_eq (take 5 s) (text "ws://")
    then text "http://" ++ drop 5 s
    else if text_eq (take 6 s) (text "wss://")
    then text "https://" ++ drop 6 s
    else s

-- `process.env.NAME?.trim()`, none where it is not set or blank
abbrev pub setting : Option Text → Option Text
setting none = none
setting (some s) = if truthy (trim s) then some (trim s) else none

-- The window's address: its origin is `protocol//host`.
pub record Window : Type 0 where
  pub protocol : Text
  pub host : Text
  pub hostname : Text

abbrev pub base_or : Text → Option Text → Option Text → Text
base_or fallback (some ws) base = strip_last (http_of_ws ws)
base_or fallback none (some base) = strip_last base
base_or fallback none none = fallback

-- `getApiBase` of `openEs`
unfoldable pub get_api_base : Window → Option Text → Option Text → Text
get_api_base w ws base = base_or (w.protocol ++ text "//" ++ w.host) (setting ws) (setting base)

-- `apiBase` of `startStream`
unfoldable pub preflight_base : Window → Option Text → Option Text → Text
preflight_base w ws base =
    base_or (w.protocol ++ text "//" ++ w.hostname ++ text ":8080") (setting ws) (setting base)

unfoldable pub stream_url : Text → Text → LogQuery → Option Text → Text
stream_url api_base server_id q token =
    api_base
    ++ text "/api/v1/servers/"
    ++ server_id
    ++ text "/logs/stream?"
    ++ params_text (log_parameters q)
    ++ text "&token="
    ++ encode_uri_component (elim token [ none ↦ [] | some t ↦ t ])
