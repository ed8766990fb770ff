-- ===== src/Streams.antt =====
-- The addresses of the connections that do not go through `apiFetch`: the terminal of
-- frontend/components/terminal-client.tsx and the metrics of frontend/app/(dashboard)/monitor/page.tsx, against the routes
-- of internal/transport/http/router.go and what a server reads of a query.
mod Tests
use ventopanel.Base.{
  ℕ, ◌≡◌, refl, ap, sym, ◌∙◌, subst, true, Option, none, some, List, [], ◌∷◌, ◌++◌, append_assoc,
  append-nil, Text, text, all, All, All-append, Without, arith,
}
use ventopanel.Api.Fetch.{get}
use ventopanel.Api.Session.{present}
use ventopanel.Api.Uri.{encode_uri_component}
use ventopanel.Api.Uri.Laws.{IsChar}
use ventopanel.Api.Uri.Queries.{
  cut, cut-append, Parameter, read_query, query_text, parameters, read_query-query_text,
  encode_uri_component-IsEncoder,
}
use ventopanel.Api.Addresses.{read_address, optional, IsText, names}
use ventopanel.Api.Routes.{routes, served_by}
use ventopanel.Api.Routes.Filling.{
  IsSegment, IsTail, tail_of, url_of, served, checked, plain, is_plain,
}
use ventopanel.Terminal.Socket.{token_query, terminal_path}
use ventopanel.Monitor.Address.{token_or_empty, metrics_path}

cut_of_Without : (d : ℕ) (s : Text) → Without d s → (cut d s).1 ≡ []
cut_of_Without d [] h = refl
cut_of_Without d (c ∷ s) (h, k) = ground (arith, cut_of_Without d s k)

read_nothing : (path : Text) → Without b'?' path → read_address path ≡ some []
unfolding read_query
read_nothing path h = ap read_query (cut_of_Without b'?' path h)

token_text : Text → Text
token_text t = text "?token=" ++ encode_uri_component t

read_token :
    (path t : Text)
    → Without b'?' path
    → All IsChar t
    → read_address (path ++ token_text t) ≡ some (parameters ((text "token", t) ∷ []))
unfolding token_text
read_token path t h k =
    ap (λ halves. read_query halves.1) (cut-append b'?' path _ h)
    ∙ read_query-query_text encode_uri_component encode_uri_component-IsEncoder (text "token") t []
        ((names.2, k), tt)

no_query : (s : Text) → all is_plain s ≡ true → Without b'?' s
no_query [] h = tt
no_query (c ∷ s) h = (ground arith, no_query s (ground arith))

module _ (id : Text) (h : IsSegment id) where
  terminal_served_with :
      (tail : Option Text)
      → IsTail (tail_of tail)
      → served_by routes get (url_of (text "servers") (id ∷ text "terminal" ∷ []) tail) ≡ true
  terminal_served_with tail t =
      served 32 _ (text "servers") (id ∷ text "terminal" ∷ []) tail refl (refl, (refl, tt))
        (checked (text "servers") refl) (plain id h, (checked (text "terminal") refl, tt)) t

  terminal-served : (token : Option Text) → served_by routes get (terminal_path id token) ≡ true
  terminal-served none = terminal_served_with none tt
  terminal-served (some []) = terminal_served_with none tt
  terminal-served (some (c ∷ t)) =
      terminal_served_with (some (text "?token=" ++ encode_uri_component (c ∷ t))) refl

  metrics-served : (token : Option Text) → served_by routes get (metrics_path id token) ≡ true
  metrics-served token =
      served 33 _ (text "servers") (id ∷ text "metrics" ∷ text "stream" ∷ [])
        (some (text "?token=" ++ encode_uri_component (token_or_empty token))) refl
        (refl, (refl, (refl, tt))) (checked (text "servers") refl)
        (plain id h, (checked (text "metrics") refl, (checked (text "stream") refl, tt))) refl

  Without-around :
      (before after : Text)
      → Without b'?' before
      → Without b'?' after
      → Without b'?' (before ++ (id ++ after))
  Without-around before after k l =
      All-append _ before (id ++ after) k (All-append _ id after (no_query id h.1) l)

  read_token_after :
      (after t : Text)
      → Without b'?' after
      → All IsChar t
      → read_address (text "/servers/" ++ (id ++ (after ++ token_text t)))
        ≡ some (parameters ((text "token", t) ∷ []))
  read_token_after after t l k =
      ap (λ rest. read_address (text "/servers/" ++ rest))
        (sym (append_assoc id after (token_text t)))
      ∙ read_token (text "/servers/" ++ (id ++ after)) t
          (Without-around (text "/servers/") after (omega arith) l) k

  terminal-token :
      (token : Option Text)
      → IsText token
      → read_address (terminal_path id token) ≡ some (parameters (optional (text "token") token))
  unfolding token_text
  terminal-token none k =
      read_nothing (terminal_path id none)
        (Without-around (text "/servers/") (text "/terminal") (omega arith) (omega arith))
  terminal-token (some []) k =
      read_nothing (terminal_path id (some []))
        (Without-around (text "/servers/") (text "/terminal") (omega arith) (omega arith))
  terminal-token (some (c ∷ t)) k = read_token_after (text "/terminal") (c ∷ t) (omega arith) k

  metrics-token :
      (token : Option Text)
      → All IsChar (token_or_empty token)
      → read_address (metrics_path id token)
        ≡ some (parameters ((text "token", token_or_empty token) ∷ []))
  unfolding token_text
  metrics-token token k =
      read_token_after (text "/metrics/stream") (token_or_empty token) (omega arith) k

  -- For a server whose id is a path segment of plain characters, the terminal and the metrics are asked for at addresses
  -- that the server has a route for, and it reads the token of the session from them: as the only parameter of the metrics, and of
  -- the terminal, which leaves it out where there is none.
  pub streams_served :
      (token : Option Text)
      → IsText token
      → (served_by routes get (terminal_path id token) ≡ true)
        × (read_address (terminal_path id token)
            ≡ some (parameters (optional (text "token") token)))
        × (served_by routes get (metrics_path id token) ≡ true)
        × (read_address (metrics_path id token)
            ≡ some (parameters ((text "token", token_or_empty token) ∷ [])))
  streams_served none k =
      (terminal-served none, terminal-token none k, metrics-served none, metrics-token none tt)
  streams_served (some t) k = (
    terminal-served (some t),
    terminal-token (some t) k,
    metrics-served (some t),
    metrics-token (some t) k,
  )
