-- ===== src/Api/Tests.antt =====
-- Runs of the definitions for frontend/lib/api.ts, and the theorems at concrete inputs.
use ventopanel.Base.{
  ℕ, ◌≡◌, ◌⊎◌, refl, inl, true, false, Option, none, some, [], ◌∷◌, ◌++◌, Text, text, All, lookup,
  show, arith,
}
use ventopanel.Api.Uri.{
  unreserved, utf8, hex_digit, escape, encode_char, encode_uri_component, bytes, query_unescape,
}
use ventopanel.Api.Uri.Laws.{
  IsInert, query_unescape-encode_uri_component, encode_uri_component-IsInert,
}
use ventopanel.Api.Session.{Browser, TokenPayload, get_token, is_token_valid, get_token_payload}
use ventopanel.Api.Fetch.{Reply, api_error, threw, Server, plain, api_fetch}
use ventopanel.Api.Fetch.Outcomes.{IsDenied, Answers, api_fetch-session}
use ventopanel.Api.Fetch.Expiry.{Attempt, IsAnonymous, after, run, run_once_denied}
use ventopanel.Api.Calls.Files.{
  fm_list_dir, fm_read_file, fm_write_file, fm_delete, fm_create_dir, fm_set_permissions, fm_rename,
  fm_compress, fm_extract, fm_download_url,
}
use ventopanel.Api.Calls.Panel.{AuditParams, audit_parameters}
use ventopanel.Api.Addresses.{read_address, file_parameters, optional, IsText, read_address-files}
use ventopanel.Api.Raw.{upload_request}
use ventopanel.Api.Uri.Queries.{parameters}

encoding : Unit {0}
unfolding encode_uri_component encode_char unreserved escape hex_digit utf8 show
encoding = tt

encoded_path : encode_uri_component (text "a b/é") ≡ text "a%20b%2F%C3%A9"
unfolding encoding
encoded_path = refl

query_unescape-encode_uri_component_example :
    query_unescape (encode_uri_component (text "a&b=é")) ≡ some (bytes (text "a&b=é"))
query_unescape-encode_uri_component_example =
    query_unescape-encode_uri_component (text "a&b=é") (omega arith)

encode_uri_component-IsInert_example : All IsInert (encode_uri_component (text "a&b=é"))
encode_uri_component-IsInert_example = encode_uri_component-IsInert (text "a&b=é") (omega arith)

-- A token whose payload is the text that `decode` is told to read.
abbrev payload : TokenPayload
payload = record {
  uid = none;
  tid = none;
  role = some (text "admin");
  email = none;
  totp_enabled = none;
  exp = some 2000;
}

abbrev decode : Text → Option TokenPayload
decode part = some payload

abbrev visitor : Browser
visitor = record { in_browser = true; token = some (text "h.p.s"); location = text "/sites" }

valid_at_1999 : is_token_valid decode 1999000 visitor ≡ true
unfolding is_token_valid
valid_at_1999 = refl

expired_at_2000 : is_token_valid decode 2000000 visitor ≡ false
unfolding is_token_valid
expired_at_2000 = refl

abbrev url_visitor : Browser
url_visitor = record visitor { token = some (text "h.p-_q.s") }

base64url_refused :
    (is_token_valid decode 1000 url_visitor ≡ false) × (get_token_payload decode url_visitor ≡ none)
unfolding is_token_valid get_token_payload get_token
base64url_refused = (refl, refl)

abbrev first_byte : Text → Option ℕ
first_byte [] = none
first_byte (c ∷ s) = some c

abbrev answering : ℕ → Text → Server
answering status body request = some (record { status = status; body = body })

abbrev denying : Server
denying = answering 401 []

api_fetch-session_example :
    ((reply : Reply) × Answers first_byte denying (text "/sites") plain visitor reply
      × IsDenied reply.status
      × ((api_fetch first_byte denying (text "/sites") plain visitor).0
          ≡ threw (api_error reply.status (text "Unauthorized")))
      × ((api_fetch first_byte denying (text "/sites") plain visitor).1.token ≡ none)
      × ((api_fetch first_byte denying (text "/sites") plain visitor).1.in_browser ≡ true)
      × ((api_fetch first_byte denying (text "/sites") plain visitor).1.location ≡ text "/login"))
    ⊎ (((reply : Reply)
          → Answers first_byte denying (text "/sites") plain visitor reply
          → ¬ IsDenied reply.status)
        × ((api_fetch first_byte denying (text "/sites") plain visitor).1 ≡ visitor))
api_fetch-session_example = api_fetch-session first_byte denying (text "/sites") plain visitor

abbrev attempt : Server → Attempt
attempt server = record { path = text "/sites"; options = plain; server = server }

run_once_denied_example :
    All IsAnonymous
      (run first_byte
        (attempt (answering 200 (text "x")) ∷ attempt denying ∷ [])
        (after first_byte (attempt denying) visitor)).0
    × ((run first_byte
          (attempt (answering 200 (text "x")) ∷ attempt denying ∷ [])
          (after first_byte (attempt denying) visitor)).1.token
        ≡ none)
unfolding lookup
run_once_denied_example =
    run_once_denied first_byte (attempt denying)
      (attempt (answering 200 (text "x")) ∷ attempt denying ∷ []) visitor
      (record { status = 401; body = [] }) refl (inl refl) (refl, (refl, tt))

abbrev a_path : Text
a_path = text "/www/a&b=c?"

visitor-IsText : IsText (get_token visitor)
unfolding get_token
visitor-IsText = omega arith

read_address-files_example :
    (read_address (fm_list_dir {R = ℕ} a_path (some (text "srv1"))).path
      ≡ some (file_parameters a_path (some (text "srv1"))))
    × (read_address (fm_read_file {R = ℕ} a_path (some (text "srv1"))).path
        ≡ some (file_parameters a_path (some (text "srv1"))))
    × (read_address (fm_write_file {R = ℕ} a_path [] (some (text "srv1"))).path
        ≡ some (file_parameters a_path (some (text "srv1"))))
    × (read_address (fm_delete {R = ℕ} a_path (some (text "srv1"))).path
        ≡ some (file_parameters a_path (some (text "srv1"))))
    × (read_address (fm_create_dir {R = ℕ} a_path (some (text "srv1"))).path
        ≡ some (file_parameters a_path (some (text "srv1"))))
    × (read_address (fm_set_permissions {R = ℕ} a_path (text "644") (some (text "srv1"))).path
        ≡ some (file_parameters a_path (some (text "srv1"))))
    × (read_address (upload_request a_path [] (some (text "srv1")) visitor).url
        ≡ some (file_parameters a_path (some (text "srv1"))))
    × (read_address (fm_download_url a_path (some (text "srv1")) visitor)
        ≡ some (
            parameters (
              (text "path", a_path)
              ∷ (optional (text "server_id") (some (text "srv1"))
                  ++ optional (text "token") (get_token visitor)))))
    × (read_address (fm_rename {R = ℕ} a_path a_path (some (text "srv1"))).path
        ≡ some (parameters (optional (text "server_id") (some (text "srv1")))))
    × (read_address (fm_compress {R = ℕ} [] a_path (some (text "srv1"))).path
        ≡ some (parameters (optional (text "server_id") (some (text "srv1")))))
    × (read_address (fm_extract {R = ℕ} a_path a_path (some (text "srv1"))).path
        ≡ some (parameters (optional (text "server_id") (some (text "srv1")))))
read_address-files_example =
    read_address-files ℕ a_path (text "644") [] a_path a_path [] [] (some (text "srv1")) visitor
      (omega arith) (omega arith) visitor-IsText

abbrev site_events : AuditParams
site_events = record {
  resource_type = some (text "site");
  resource_id = some [];
  limit = some 50;
  before = some (text "2026-04-28T09:00:00Z,d6f4");
}

audit_parameters_of_site_events :
    audit_parameters site_events
    ≡ (text "resource_type", text "site")
      ∷ (text "limit", text "50")
      ∷ (text "before", text "2026-04-28T09:00:00Z,d6f4")
      ∷ []
unfolding encoding
audit_parameters_of_site_events = refl
