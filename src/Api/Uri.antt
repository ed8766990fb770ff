-- ===== src/Api/Uri.antt =====
-- `encodeURIComponent` as the language defines it, over code points, and the decoding of a query
-- that a server does: the two sides of every address that frontend/lib/api.ts builds.
pub mod Laws
pub mod Queries
pub mod Forms
pub mod Paths
use ventopanel.Base.{
  ℕ, ◌+◌, ◌-◌, ◌*◌, ◌/◌, ◌%◌, ltb, leb, ◌==◌, if◌then◌else◌, Bool, true, false, ◌&&◌, ◌||◌, Option,
  none, some, List, [], ◌∷◌, ◌++◌, Text, text,
}

-- The characters that are not escaped: letters, digits and `-_.!~*'()`.
unfoldable pub unreserved : ℕ → Bool
unreserved c =
    leb b'A' c && leb c b'Z'
    || leb b'a' c && leb c b'z'
    || leb b'0' c && leb c b'9'
    || c == 0x2d
    || c == 0x5f
    || c == 0x2e
    || c == 0x21
    || c == 0x7e
    || leb 0x27 c && leb c 0x2a

unfoldable pub utf8 : ℕ → List ℕ
utf8 c =
    if ltb c 0x80
    then c ∷ []
    else if ltb c 0x800
    then (0xc0 + c / 64) ∷ (0x80 + c % 64) ∷ []
    else if ltb c 0x10000
    then (0xe0 + c / 4096) ∷ (0x80 + c / 64 % 64) ∷ (0x80 + c % 64) ∷ []
    else (0xf0 + c / 262144) ∷ (0x80 + c / 4096 % 64) ∷ (0x80 + c / 64 % 64) ∷ (0x80 + c % 64) ∷ []

unfoldable pub hex_digit : ℕ → ℕ
hex_digit n = if ltb n 10 then b'0' + n else b'A' + (n - 10)

unfoldable pub escape : List ℕ → Text
unfolding hex_digit
escape [] = []
escape (b ∷ bs) = b'%' ∷ hex_digit (b / 16) ∷ hex_digit (b % 16) ∷ escape bs

unfoldable pub encode_char : ℕ → Text
unfolding unreserved utf8 escape
encode_char c = if unreserved c then c ∷ [] else escape (utf8 c)

-- On a surrogate that stands alone it throws a `URIError`; such texts are left out, by `IsChar` of Api/Uri/Laws.
unfoldable pub encode_uri_component : Text → Text
unfolding encode_char
encode_uri_component [] = []
encode_uri_component (c ∷ s) = encode_char c ++ encode_uri_component s

-- The bytes of a text.
unfoldable pub bytes : Text → List ℕ
unfolding utf8
bytes [] = []
bytes (c ∷ s) = utf8 c ++ bytes s

unfoldable pub hex_value : ℕ → Option ℕ
hex_value c =
    if leb b'0' c && leb c b'9'
    then some (c - b'0')
    else if leb b'A' c && leb c b'F'
    then some (c - b'A' + 10)
    else if leb b'a' c && leb c b'f'
    then some (c - b'a' + 10)
    else none

abbrev pub byte_of : Option ℕ → Option ℕ → Option (List ℕ) → Option (List ℕ)
byte_of (some h) (some l) (some bs) = some ((16 * h + l) ∷ bs)
byte_of _ _ _ = none

abbrev pub plain_byte : ℕ → Option (List ℕ) → Option (List ℕ)
plain_byte b (some bs) = some (b ∷ bs)
plain_byte b none = none

-- What a server reads in a query: `+` is a space, `%` and two hexadecimal digits are a byte.
unfoldable pub query_unescape : Text → Option (List ℕ)
query_unescape [] = some []
query_unescape (c ∷ []) = if c == b'%' then none else some ((if c == b'+' then 0x20 else c) ∷ [])
query_unescape (c ∷ d ∷ []) =
    if c == b'%' then none else plain_byte (if c == b'+' then 0x20 else c) (query_unescape (d ∷ []))
query_unescape (c ∷ d ∷ e ∷ s) =
    let escaped = byte_of (hex_value d) (hex_value e) (query_unescape s) in
    let plain = plain_byte (if c == b'+' then 0x20 else c) (query_unescape (d ∷ e ∷ s)) in
    if c == b'%' then escaped else plain
