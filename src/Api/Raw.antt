-- ===== src/Api/Raw.antt =====
-- The functions of frontend/lib/api.ts that call `fetch` themselves or store a token: login, registration,
-- upload, download, and the second factor. Reading the `error` of a failed reply's JSON is a
-- parameter, and so is reading a value out of its JSON.
use ventopanel.Base.{
  if◌then◌else◌, Bool, true, false, Option, none, some, List, [], ◌∷◌, ◌++◌, Text, text, map,
}
use ventopanel.Api.Uri.{encode_uri_component}
use ventopanel.Api.Session.{Browser, get_token, set_token, present}
use ventopanel.Api.Fetch.{
  get, post, Value, str, Body, Request, api_error, plain_error, network_error, syntax_error,
  Outcome, ok, threw, Server, authorize, json_headers, is_ok, ApiCall, with_body, perform,
}
use ventopanel.Api.Calls.Files.{sid_param}

pub record LoginResponse : Type 0 where
  pub token : Text
  pub email : Text
  pub role : Text

-- A reply of `/auth/login`: a token, or the session of a second factor.
pub data LoginResult : Type 0 where
  logged_in : LoginResponse → LoginResult
  mfa_required : Text → LoginResult

-- `r.mfa_required === true`
abbrev pub is_mfa_required : LoginResult → Bool
is_mfa_required (logged_in r) = false
is_mfa_required (mfa_required session) = true

-- `body.error ?? fallback`, where a body that is no JSON counts as empty.
abbrev pub message_or : Text → Option Text → Text
message_or fallback none = fallback
message_or fallback (some message) = message

abbrev pub json_post : Text → Body → Request
json_post url body = record { method = post; url = url; headers = json_headers; body = some body }

module _ {A : Type 0} (parse : Text → Option A) (error_of : Text → Option Text) where
  abbrev parsed_reply : Option A → Outcome A
  parsed_reply none = threw syntax_error
  parsed_reply (some a) = ok a

  -- A `fetch` whose failed reply throws an `ApiError`.
  unfoldable pub api_post : Server → Text → Text → Body → Outcome A
  api_post server url fallback body = elim (server (json_post url body)) [
    | none ↦ threw network_error
    | some reply ↦
        if is_ok reply.status
        then parsed_reply (parse reply.body)
        else threw (api_error reply.status (message_or fallback (error_of reply.body)))
  ]

  unfoldable pub register_user : Server → Text → Text → Text → Outcome A
  unfolding api_post
  register_user server email password team_id =
      api_post server (text "/api/v1/auth/register") (text "Registration failed") (
        (text "email", str email)
        ∷ (text "password", str password)
        ∷ (text "team_id", str team_id)
        ∷ [])

unfoldable pub login :
    (Text → Option LoginResult) → (Text → Option Text) → Server → Text → Text → Outcome LoginResult
unfolding api_post
login parse error_of server email password =
    api_post parse error_of server (text "/api/v1/auth/login") (text "Login failed")
      ((text "email", str email) ∷ (text "password", str password) ∷ [])

-- `token ? { Authorization: … } : {}`
abbrev pub token_headers : Browser → List (Text × Text)
token_headers b = authorize (present (get_token b)) []

abbrev pub file_field : Text → Text × Value
file_field name = (text "file", str name)

-- The form holds one field for each file; the model keeps the files' names.
abbrev pub upload_request : Text → List Text → Option Text → Browser → Request
upload_request dir files server_id b = record {
  method = post;
  url = text "/api/v1/files/upload?path=" ++ (encode_uri_component dir ++ sid_param server_id);
  headers = token_headers b;
  body = some (map file_field files);
}

module _ (error_of : Text → Option Text) where
  unfoldable pub fm_upload :
      Server → Text → List Text → Option Text → Browser → Outcome (Unit {0}) × Browser
  fm_upload server dir files server_id b = elim (server (upload_request dir files server_id b)) [
    | none ↦ (threw network_error, b)
    | some reply ↦
        if is_ok reply.status
        then (ok tt, b)
        else (threw (plain_error (message_or (text "Upload failed") (error_of reply.body))), b)
  ]

  abbrev pub backup_request : Text → Browser → Request
  backup_request name b = record {
    method = get;
    url = text "/api/v1/backups/" ++ (encode_uri_component name ++ text "/download");
    headers = token_headers b;
    body = none;
  }

  -- The file that the browser is told to save, with its content; the revoking of the object's
  -- address ten seconds later is not modelled.
  unfoldable pub download_backup : Server → Text → Browser → Outcome (Text × Text) × Browser
  download_backup server name b = elim (server (backup_request name b)) [
    | none ↦ (threw network_error, b)
    | some reply ↦
        if is_ok reply.status
        then (ok (name, reply.body), b)
        else (threw (plain_error (message_or (text "download failed") (error_of reply.body))), b)
  ]

-- `/auth/totp/enable` and `/auth/totp/disable` answer with a token, or with none.
pub record TokenResponse : Type 0 where
  pub token : Option Text

abbrev pub token_field : Option TokenResponse → Option (Option Text)
token_field none = none
token_field (some r) = some r.token

abbrev pub totp_call : Text → Text → ApiCall TokenResponse (Option Text)
totp_call path code = record {
  path = path;
  options = with_body post ((text "code", str code) ∷ []);
  finish = token_field;
}

-- `if (res.token) setToken(res.token)`
abbrev pub store_token : Option Text → Browser → Browser
store_token token b = elim (present token) [ none ↦ b | some t ↦ set_token t b ]

module _ (parse : Text → Option TokenResponse) where
  abbrev pub stored : Outcome (Option Text) × Browser → Outcome (Unit {0}) × Browser
  stored (ok token, b) = (ok tt, store_token token b)
  stored (threw e, b) = (threw e, b)

  unfoldable pub enable_totp : Server → Text → Browser → Outcome (Unit {0}) × Browser
  enable_totp server code b =
      stored (perform parse server (totp_call (text "/auth/totp/enable") code) b)

  unfoldable pub disable_totp : Server → Text → Browser → Outcome (Unit {0}) × Browser
  disable_totp server code b =
      stored (perform parse server (totp_call (text "/auth/totp/disable") code) b)

-- The token goes into the address, since a stream cannot carry the header.
unfoldable pub get_log_stream_url : Text → Browser → Text
get_log_stream_url site_id b =
    text "/api/v1/sites/"
    ++ (site_id
        ++ (text "/container/logs/stream" ++ (elim (present (get_token b)) [
          | none ↦ []
          | some t ↦ text "?token=" ++ encode_uri_component t
        ])))
