-- ===== src/Proxy/Tests.antt =====
-- Runs of the definitions for frontend/app/api/v1/[...path]/route.ts, and the theorem at a concrete
-- input.
use ventopanel.Base.{◌≡◌, refl, Option, some, [], ◌∷◌, text, insert}
use ventopanel.Proxy.{
  is_hop_by_hop, forward_to, forward_headers, Incoming, Upstream, Response, upstream_request,
}

abbrev call : Incoming
call = record {
  method = text "GET";
  path = text "servers" ∷ text "7" ∷ [];
  search = text "?a=1";
  headers = (text "host", text "panel") ∷ (text "authorization", text "Bearer t") ∷ [];
  body = [];
}

forwarded_url :
    (upstream_request (text "http://api:8080") call).url
    ≡ text "http://api:8080/api/v1/servers/7?a=1"
unfolding upstream_request
forwarded_url = refl

forwarded_headers : forward_headers call.headers ≡ (text "authorization", text "Bearer t") ∷ []
unfolding forward_headers forward_to insert is_hop_by_hop
forwarded_headers = refl

abbrev answer : Response
answer = record {
  status = 200;
  headers = (text "Connection", text "close") ∷ [];
  body = 123 ∷ 125 ∷ [];
}

abbrev answering : Upstream → Option Response
answering request = some answer
