-- ===== src/Proxy.antt =====
-- frontend/app/api/v1/[...path]/route.ts: the route that passes every call of the client on to the API
-- server. `fetch` is a parameter.
pub mod Headers
mod Tests
use ventopanel.Base.{
  to_lower, not, ◌&&◌, ◌||◌, if◌then◌else◌, Bool, true, false, Option, none, some, List, [], ◌∷◌,
  ◌++◌, Text, text, text_eq, insert, includes, ℕ,
}

abbrev pub hop_by_hop : List Text
hop_by_hop =
    text "connection"
    ∷ text "keep-alive"
    ∷ text "proxy-authenticate"
    ∷ text "proxy-authorization"
    ∷ text "te"
    ∷ text "trailers"
    ∷ text "transfer-encoding"
    ∷ text "upgrade"
    ∷ text "host"
    ∷ []

-- `HOP_BY_HOP.has(name.toLowerCase())`
unfoldable pub is_hop_by_hop : Text → Bool
is_hop_by_hop name = includes hop_by_hop (to_lower name)

abbrev pub Headers : Type 0
Headers = List (Text × Text)

-- `headers.forEach` into an object.
unfoldable pub forward_to : Headers → Headers → Headers
forward_to forwarded [] = forwarded
forward_to forwarded (header ∷ headers) =
    if is_hop_by_hop header.0
    then forward_to forwarded headers
    else forward_to (insert header.0 header.1 forwarded) headers

unfoldable pub forward_headers : Headers → Headers
forward_headers headers = forward_to [] headers

-- A request to the route, and one to the API server. A body is its bytes.
pub record Incoming : Type 0 where
  pub method : Text
  pub path : List Text
  pub search : Text
  pub headers : Headers
  pub body : List ℕ

pub record Upstream : Type 0 where
  pub method : Text
  pub url : Text
  pub headers : Headers
  pub body : Option (List ℕ)

pub record Response : Type 0 where
  pub status : ℕ
  pub headers : Headers
  pub body : List ℕ

-- `path.join("/")`
abbrev pub join_path : List Text → Text
join_path [] = []
join_path (p ∷ []) = p
join_path (p ∷ q ∷ ps) = p ++ b'/' ∷ join_path (q ∷ ps)

abbrev pub has_body : Text → Bool
has_body method = not (text_eq method (text "GET")) && not (text_eq method (text "HEAD"))

unfoldable pub upstream_request : Text → Incoming → Upstream
upstream_request api_base req = record {
  method = req.method;
  url = api_base ++ text "/api/v1/" ++ join_path req.path ++ req.search;
  headers = forward_headers req.headers;
  body = if has_body req.method then some req.body else none;
}

unfoldable pub downstream_response : Response → Response
downstream_response upstream = record upstream { headers = forward_headers upstream.headers }

-- `proxy`; none is a `fetch` that is rejected, which the route does not catch.
unfoldable pub proxy : Text → (Upstream → Option Response) → Incoming → Option Response
proxy api_base fetch req = elim (fetch (upstream_request api_base req)) [
  | none ↦ none
  | some upstream ↦ some (downstream_response upstream)
]
