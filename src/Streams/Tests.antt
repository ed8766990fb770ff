-- ===== src/Streams/Tests.antt =====
-- The theorem of Streams.antt at a concrete server and token.
use ventopanel.Base.{◌≡◌, refl, true, some, [], ◌∷◌, text, arith}
use ventopanel.Api.Fetch.{get}
use ventopanel.Api.Uri.Queries.{parameters}
use ventopanel.Api.Addresses.{read_address, optional}
use ventopanel.Api.Routes.{routes, served_by}
use ventopanel.Terminal.Socket.{terminal_path}
use ventopanel.Monitor.Address.{token_or_empty, metrics_path}
use ventopanel.Streams.{streams_served}

streams_served_example :
    (served_by routes get (terminal_path (text "srv-1") (some (text "a+b"))) ≡ true)
    × (read_address (terminal_path (text "srv-1") (some (text "a+b")))
        ≡ some (parameters (optional (text "token") (some (text "a+b")))))
    × (served_by routes get (metrics_path (text "srv-1") (some (text "a+b"))) ≡ true)
    × (read_address (metrics_path (text "srv-1") (some (text "a+b")))
        ≡ some (parameters ((text "token", token_or_empty (some (text "a+b"))) ∷ [])))
streams_served_example =
    streams_served (text "srv-1") (refl, refl, refl) (some (text "a+b")) (omega arith)
