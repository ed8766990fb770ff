-- ===== src/Proxy/Headers.antt =====
-- The headers that the route of Proxy.antt passes on.
use ventopanel.Base.{
  ℕ, ◌+◌, ◌<◌, ◌⊎◌, ◌==◌, leb, text, Bool, false, ◌&&◌, ◌||◌, List, if◌then◌else◌, true, Option,
  none, [], ◌∷◌, Text, lookup, spread,
}
use ventopanel.Proxy.{Headers}

-- The headers that belong to one connection, and the host, as the protocol names them.
abbrev pub connection_headers : List Text
connection_headers =
    text "connection"
    ∷ text "keep-alive"
    ∷ text "proxy-authenticate"
    ∷ text "proxy-authorization"
    ∷ text "te"
    ∷ text "trailers"
    ∷ text "transfer-encoding"
    ∷ text "upgrade"
    ∷ text "host"
    ∷ []

-- A character is this one, or the capital of this letter.
abbrev pub same_letter : ℕ → ℕ → Bool
same_letter c d = c == d || (leb b'a' d && leb d b'z' && c + 32 == d)

-- A name of a header is this one, whatever the case of its letters.
abbrev pub same_name : Text → Text → Bool
same_name [] [] = true
same_name [] (d ∷ ds) = false
same_name (c ∷ cs) [] = false
same_name (c ∷ cs) (d ∷ ds) = same_letter c d && same_name cs ds

abbrev pub is_connection_header : List Text → Text → Bool
is_connection_header [] name = false
is_connection_header (header ∷ headers) name =
    same_name name header || is_connection_header headers name

abbrev IsNoCapital : ℕ → Type 0
IsNoCapital c = (c < b'A') ⊎ (b'Z' < c)

-- The value that a header has among these, if it does not belong to one connection.
abbrev pub passed : Text → Headers → Option Text
passed name headers =
    if is_connection_header connection_headers name then none else lookup name (spread [] headers)
