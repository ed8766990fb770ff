-- ===== src/Api/Fetch.antt =====
-- `apiFetch` of frontend/lib/api.ts. The browser's `fetch` is a parameter, a function from the request
-- to the reply that the server gives this time; so is the reading of a reply's JSON.
pub mod Outcomes
pub mod Expiry
pub mod Performed
use ventopanel.Base.{
  ℕ, leb, ◌==◌, if◌then◌else◌, Bool, true, false, not, ◌&&◌, ◌||◌, Option, none, some, List, [],
  ◌∷◌, ◌++◌, Text, text, truthy, insert, spread,
}
use ventopanel.Api.Session.{Browser, get_token, clear_token, present}

pub data Method : Type 0 where
  get post put patch delete : Method

-- The values that the client's bodies hold. A field that is undefined is left out of the list.
pub data Value : Type 0 where
  str : Text → Value
  num : ℕ → Value
  flag : Bool → Value
  strs : List Text → Value

abbrev pub Body : Type 0
Body = List (Text × Value)

-- `RequestInit`, as far as the client uses it.
pub record Options : Type 0 where
  pub method : Method
  pub headers : List (Text × Text)
  pub body : Option Body

pub record Request : Type 0 where
  pub method : Method
  pub url : Text
  pub headers : List (Text × Text)
  pub body : Option Body

pub record Reply : Type 0 where
  pub status : ℕ
  pub body : Text

pub data Error : Type 0 where
  api_error : ℕ → Text → Error
  plain_error : Text → Error
  network_error : Error
  syntax_error : Error
  type_error : Error

-- What a promise settles to.
pub data Outcome (A : Type 0) : Type 0 where
  ok : A → Outcome A
  threw : Error → Outcome A

-- `fetch`: `none` is a promise that is rejected, such as without a network.
abbrev pub Server : Type 0
Server = Request → Option Reply

abbrev pub authorization : Text
authorization = text "Authorization"

abbrev pub bearer : Text → Text
bearer t = text "Bearer " ++ t

abbrev pub authorize : Option Text → List (Text × Text) → List (Text × Text)
authorize none headers = headers
authorize (some t) headers = insert authorization (bearer t) headers

abbrev pub json_headers : List (Text × Text)
json_headers = (text "Content-Type", text "application/json") ∷ []

unfoldable pub request_of : Text → Options → Browser → Request
request_of path o b = record {
  method = o.method;
  url = text "/api/v1" ++ path;
  headers = authorize (present (get_token b)) (spread json_headers o.headers);
  body = o.body;
}

abbrev pub denied : ℕ → Bool
denied status = status == 401 || status == 403

-- `Response.ok`
abbrev pub is_ok : ℕ → Bool
is_ok status = leb 200 status && leb status 299

unfoldable pub logged_out : Browser → Browser
unfolding clear_token
logged_out b =
    if b.in_browser then record (clear_token b) { location = text "/login" } else clear_token b

module _ {A : Type 0} (parse : Text → Option A) where
  abbrev pub parsed : Option A → Outcome (Option A)
  parsed none = threw syntax_error
  parsed (some a) = ok (some a)

  unfoldable pub receive : Reply → Browser → Outcome (Option A) × Browser
  receive reply b =
      if denied reply.status
      then (threw (api_error reply.status (text "Unauthorized")), logged_out b)
      else if reply.status == 204
      then (ok none, b)
      else if not (is_ok reply.status)
      then (threw (api_error reply.status reply.body), b)
      else (parsed (parse reply.body), b)

  unfoldable pub api_fetch : Server → Text → Options → Browser → Outcome (Option A) × Browser
  api_fetch server path o b = elim (server (request_of path o b)) [
    | none ↦ (threw network_error, b)
    | some reply ↦ receive reply b
  ]

-- One exported function of the client: what it asks of `apiFetch`, and what it makes of the value
-- or the `undefined` that comes back; `finish` gives `none` where it reads a field of `undefined`.
-- The type of the reply is what the source casts to, and nothing checks it.
pub record ApiCall (R A : Type 0) : Type 0 where
  pub path : Text
  pub options : Options
  pub finish : Option R → Option A

abbrev pub finished : {A : Type 0} → Option A → Outcome A
finished none = threw type_error
finished (some a) = ok a

unfoldable pub perform :
    {R A : Type 0} → (Text → Option R) → Server → ApiCall R A → Browser → Outcome A × Browser
perform parse server call b =
    let r = api_fetch parse server call.path call.options b in
    elim r.0 [ ok v ↦ (finished (call.finish v), r.1) | threw e ↦ (threw e, r.1) ]

-- `apiFetch(path)`: a GET with no body.
abbrev pub plain : Options
plain = record { method = get; headers = []; body = none }

abbrev pub with_method : Method → Options
with_method m = record { method = m; headers = []; body = none }

abbrev pub with_body : Method → Body → Options
with_body m body = record { method = m; headers = []; body = some body }

pub record ListResponse (T : Type 0) : Type 0 where
  pub items : Option (List T)

-- `data.items ?? []`
abbrev pub items_or_empty : {T : Type 0} → Option (ListResponse T) → Option (List T)
items_or_empty none = none
items_or_empty (some d) = elim d.items [ none ↦ some [] | some ts ↦ some ts ]

-- `return apiFetch(…)`: the value as it is, `undefined` too.
abbrev pub whole : {R : Type 0} → Option R → Option (Option R)
whole r = some r

-- `await apiFetch(…)`: nothing of the reply is used.
abbrev pub ignored : {R : Type 0} → Option R → Option (Unit {0})
ignored r = some tt

-- A field of a body that is left out where it is undefined.
abbrev pub given : Text → Option Text → Body
given name none = []
given name (some v) = (name, str v) ∷ []

-- `status ?? d`
abbrev pub status_or : Text → Option Text → Text
status_or d none = d
status_or d (some status) = status
