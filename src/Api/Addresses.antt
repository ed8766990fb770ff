-- ===== src/Api/Addresses.antt =====
-- The queries that frontend/lib/api.ts puts into its addresses, as a server reads them.
use ventopanel.Base.{
  ℕ, ◌≡◌, refl, ap₂, sym, ◌∙◌, inl, inr, true, Option, none, some, Bool-cases, List, [], ◌∷◌, ◌++◌,
  append_assoc, append-nil, All, All-append, All-map, all, show-digits, all-All, Text, text, show,
  ◌==◌, arith,
}
use ventopanel.Api.Uri.{unreserved, encode_uri_component}
use ventopanel.Api.Uri.Laws.{IsChar}
use ventopanel.Api.Uri.Forms.{form_encode, form_encode-IsEncoder}
use ventopanel.Api.Uri.Queries.{
  cut, Parameter, read_query, query_text, IsName, AreParameters, parameters, read_query-query_text,
  encode_uri_component-IsEncoder,
}
use ventopanel.Api.Session.{Browser, get_token, present}
use ventopanel.Api.Calls.Files.{
  sid_param, token_param, fm_list_dir, fm_read_file, fm_write_file, fm_delete, fm_create_dir,
  fm_set_permissions, fm_rename, fm_compress, fm_extract, sid_query, fm_download_url,
}
use ventopanel.Api.Raw.{upload_request}
use ventopanel.Api.Calls.Panel.{
  AuditParams, set_number, audit_parameters, form_text, fetch_audit_events,
}

-- What follows the first `?` of an address, read as a query.
abbrev pub read_address : Text → Option (List Parameter)
read_address url = read_query (cut b'?' url).1

-- A parameter that is there when its value is.
abbrev pub optional : Text → Option Text → List (Text × Text)
optional name value = elim (present value) [ none ↦ [] | some v ↦ (name, v) ∷ [] ]

abbrev pub IsText : Option Text → Type 0
IsText none = Unit {0}
IsText (some t) = All IsChar t

abbrev pub file_parameters : Text → Option Text → List Parameter
file_parameters path server_id =
    parameters ((text "path", path) ∷ optional (text "server_id") server_id)

name : (k : Text) → all unreserved k ≡ true → IsName k
name k h = all-All unreserved k h

pub names : IsName (text "path") × IsName (text "server_id") × IsName (text "token")
unfolding unreserved
names = (name (text "path") refl, name (text "server_id") refl, name (text "token") refl)

-- `&k=v` for each parameter.
abbrev following : List (Text × Text) → Text
following [] = []
following ((k, v) ∷ more) = b'&' ∷ (k ++ b'=' ∷ (encode_uri_component v ++ following more))

following-append :
    (ps qs : List (Text × Text)) → following (ps ++ qs) ≡ following ps ++ following qs
following-append [] qs = refl
following-append ((k, v) ∷ ps) qs = simp (following-append ps qs, append_assoc)

query_text-following :
    (k v : Text) (more : List (Text × Text))
    → query_text encode_uri_component k v more
      ≡ k ++ b'=' ∷ (encode_uri_component v ++ following more)
query_text-following k v [] = simp append-nil
query_text-following k v ((j, w) ∷ more) = simp (query_text-following j w more, append_assoc)

sid_param-following :
    (server_id : Option Text)
    → sid_param server_id ≡ following (optional (text "server_id") server_id)
sid_param-following none = refl
sid_param-following (some []) = refl
sid_param-following (some (c ∷ s)) = simp append-nil

token_param-following :
    (token : Option Text) → token_param token ≡ following (optional (text "token") token)
token_param-following none = refl
token_param-following (some []) = refl
token_param-following (some (c ∷ s)) = simp append-nil

pub optional-AreParameters :
    (k : Text) (value : Option Text) → IsName k → IsText value → AreParameters (optional k value)
optional-AreParameters k none n h = tt
optional-AreParameters k (some []) n h = tt
optional-AreParameters k (some (c ∷ s)) n h = ((n, h), tt)

-- A query whose further parameters are written as the source writes them.
path_query :
    (path extra : Text) (more : List (Text × Text))
    → extra ≡ following more
    → text "path=" ++ (encode_uri_component path ++ extra)
      ≡ query_text encode_uri_component (text "path") path more
path_query path extra more e = rw e (sym (query_text-following (text "path") path more))

read_path_query :
    (path extra : Text) (more : List (Text × Text))
    → extra ≡ following more
    → All IsChar path
    → AreParameters more
    → read_query (text "path=" ++ (encode_uri_component path ++ extra))
      ≡ some (parameters ((text "path", path) ∷ more))
read_path_query path extra more e h k = rw (path_query path extra more e) (
    read_query-query_text encode_uri_component encode_uri_component-IsEncoder (text "path") path
      more ((names.0, h), k))

pub read_path_server :
    (path : Text) (server_id : Option Text)
    → All IsChar path
    → IsText server_id
    → read_query (text "path=" ++ (encode_uri_component path ++ sid_param server_id))
      ≡ some (file_parameters path server_id)
read_path_server path server_id h k =
    read_path_query path (sid_param server_id) (optional (text "server_id") server_id)
      (sid_param-following server_id) h
      (optional-AreParameters (text "server_id") server_id names.1 k)

-- A server reads from the address of a download the path, the server and the token of the
-- session, and no other parameter, whatever characters they hold.
read_address-download :
    (path : Text) (server_id : Option Text) (b : Browser)
    → All IsChar path
    → IsText server_id
    → IsText (get_token b)
    → read_address (fm_download_url path server_id b)
      ≡ some (
          parameters (
            (text "path", path)
            ∷ (optional (text "server_id") server_id ++ optional (text "token") (get_token b))))
unfolding fm_download_url
read_address-download path server_id b h k l =
    read_path_query path (sid_param server_id ++ token_param (get_token b))
      (optional (text "server_id") server_id ++ optional (text "token") (get_token b))
      (ap₂ ◌++◌ (sid_param-following server_id) (token_param-following (get_token b))
        ∙ sym (following-append _ _))
      h
      (All-append _ (optional (text "server_id") server_id) (optional (text "token") (get_token b))
        (optional-AreParameters (text "server_id") server_id names.1 k)
        (optional-AreParameters (text "token") (get_token b) names.2 l))

-- The query of the calls whose paths are in their bodies.
read_sid_query :
    (server_id : Option Text)
    → IsText server_id
    → read_query (cut b'?' (sid_query server_id)).1
      ≡ some (parameters (optional (text "server_id") server_id))
unfolding read_query
read_sid_query none k = refl
read_sid_query (some []) k = refl
read_sid_query (some (c ∷ s)) k =
    read_query-query_text encode_uri_component encode_uri_component-IsEncoder (text "server_id")
      (c ∷ s) [] ((names.1, k), tt)

-- A server reads from the address of each call that names a file or a folder there, of an upload and of a download too,
-- the path and the server that were meant, with the token of the session in the address of a download, and from those of
-- renaming, packing and unpacking, whose paths are in their bodies, the server; and no other parameter, whatever
-- characters they hold.
pub read_address-files :
    (R : Type 0) (path mode content old new : Text) (paths files : List Text)
    (server_id : Option Text) (b : Browser)
    → All IsChar path
    → IsText server_id
    → IsText (get_token b)
    → (read_address (fm_list_dir {R = R} path server_id).path
        ≡ some (file_parameters path server_id))
      × (read_address (fm_read_file {R = R} path server_id).path
          ≡ some (file_parameters path server_id))
      × (read_address (fm_write_file {R = R} path content server_id).path
          ≡ some (file_parameters path server_id))
      × (read_address (fm_delete {R = R} path server_id).path
          ≡ some (file_parameters path server_id))
      × (read_address (fm_create_dir {R = R} path server_id).path
          ≡ some (file_parameters path server_id))
      × (read_address (fm_set_permissions {R = R} path mode server_id).path
          ≡ some (file_parameters path server_id))
      × (read_address (upload_request path files server_id b).url
          ≡ some (file_parameters path server_id))
      × (read_address (fm_download_url path server_id b)
          ≡ some (
              parameters (
                (text "path", path)
                ∷ (optional (text "server_id") server_id
                    ++ optional (text "token") (get_token b)))))
      × (read_address (fm_rename {R = R} old new server_id).path
          ≡ some (parameters (optional (text "server_id") server_id)))
      × (read_address (fm_compress {R = R} paths new server_id).path
          ≡ some (parameters (optional (text "server_id") server_id)))
      × (read_address (fm_extract {R = R} old new server_id).path
          ≡ some (parameters (optional (text "server_id") server_id)))
unfolding fm_list_dir fm_read_file fm_write_file fm_delete fm_create_dir fm_set_permissions
    fm_rename fm_compress fm_extract
read_address-files R path mode content old new paths files server_id b h k l =
    let read = read_path_server path server_id h k in
    let server = read_sid_query server_id k in
    (
      read,
      read,
      read,
      read,
      read,
      read,
      read,
      read_address-download path server_id b h k l,
      server,
      server,
      server,
    )

show-IsChar : (n : ℕ) → All IsChar (show n)
show-IsChar n = All-map _ _ (show n) (λ c h. omega arith) (show-digits n)

form_text-read :
    (ps : List (Text × Text)) → AreParameters ps → read_query (form_text ps) ≡ some (parameters ps)
unfolding read_query
form_text-read [] h = refl
form_text-read ((k, v) ∷ more) h =
    read_query-query_text form_encode form_encode-IsEncoder k v more h

set_number-AreParameters : (k : Text) (n : Option ℕ) → IsName k → AreParameters (set_number k n)
set_number-AreParameters k none h = tt
set_number-AreParameters k (some n) h = elim (Bool-cases (n == 0)) [
  | inl e ↦ rw e tt
  | inr e ↦ rw e ((h, show-IsChar n), tt)
]

abbrev pub IsAuditParams : AuditParams → Type 0
IsAuditParams p = IsText p.resource_type × IsText p.resource_id × IsText p.before

audit_names :
    IsName (text "resource_type")
    × IsName (text "resource_id")
    × IsName (text "limit")
    × IsName (text "before")
unfolding unreserved
audit_names = (
  name (text "resource_type") refl,
  name (text "resource_id") refl,
  name (text "limit") refl,
  name (text "before") refl,
)

audit_parameters-AreParameters :
    (p : AuditParams) → IsAuditParams p → AreParameters (audit_parameters p)
audit_parameters-AreParameters p h =
    All-append _ (optional (text "resource_type") p.resource_type) _
      (optional-AreParameters _ p.resource_type audit_names.0 h.0)
      (All-append _ (optional (text "resource_id") p.resource_id) _
        (optional-AreParameters _ p.resource_id audit_names.1 h.1)
        (All-append _ (set_number (text "limit") p.limit) _
          (set_number-AreParameters _ p.limit audit_names.2)
          (optional-AreParameters _ p.before audit_names.3 h.2)))

-- A server reads from the address of an audit page exactly the filters that were given: empty texts
-- and a limit of zero are left out.
read_address-audit :
    (R : Type 0) (p : AuditParams)
    → IsAuditParams p
    → read_address (fetch_audit_events {R = R} p).path ≡ some (parameters (audit_parameters p))
unfolding fetch_audit_events
read_address-audit R p h = form_text-read (audit_parameters p) (audit_parameters-AreParameters p h)
