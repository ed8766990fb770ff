-- ===== src/Api/Uri/Laws.antt =====
-- What a server decodes from an encoded text.
use ventopanel.Base.{
  ℕ, ◌+◌, ◌*◌, ◌/◌, ◌%◌, ◌<◌, ◌⊎◌, ◌≡◌, ◌≢◌, refl, ap, ◌∙◌, ◌==◌, true, false, Bool-cases, inl, inr,
  Option, none, some, List, [], ◌∷◌, ◌++◌, All, All-append, Text, arith,
}
use ventopanel.Api.Uri.{
  unreserved, utf8, hex_digit, escape, encode_char, encode_uri_component, bytes, hex_value, byte_of,
  plain_byte, query_unescape,
}

pub hex_value-hex_digit : (n : ℕ) → n < 16 → hex_value (hex_digit n) ≡ some n
unfolding hex_value hex_digit
hex_value-hex_digit n h = ground arith

-- A character of Unicode; a surrogate that stands alone in a text is none.
abbrev pub IsChar : ℕ → Type 0
IsChar c = (c < 0xd800) ⊎ ((0xdfff < c) × (c < 0x110000))

abbrev pub IsByte : ℕ → Type 0
IsByte b = b < 256

pub utf8-IsByte : (c : ℕ) → IsChar c → All IsByte (utf8 c)
unfolding utf8
utf8-IsByte c h = ground arith

-- A step of the decoding, at an escape and at an unreserved character.
query_unescape-escaped :
    (b : ℕ) (t : Text)
    → IsByte b
    → query_unescape (b'%' ∷ hex_digit (b / 16) ∷ hex_digit (b % 16) ∷ t)
      ≡ plain_byte b (query_unescape t)
unfolding query_unescape
query_unescape-escaped b t h =
    rw (hex_value-hex_digit (b / 16) (omega arith), hex_value-hex_digit (b % 16) (omega arith))
      (byte_of-plain_byte (16 * (b / 16) + b % 16) b (omega arith) (query_unescape t))
  where
    byte_of-plain_byte :
        (a b : ℕ)
        → a ≡ b
        → (o : Option (List ℕ)) → byte_of (some (b / 16)) (some (b % 16)) o ≡ plain_byte b o
    byte_of-plain_byte a b e none = refl
    byte_of-plain_byte a b e (some bs) = ap (λ n. some (n ∷ bs)) (omega arith)

unreserved-not_special :
    (c : ℕ) → unreserved c ≡ true → ((c == b'%') ≡ false) × ((c == b'+') ≡ false)
unfolding unreserved
unreserved-not_special c h = ground arith

pub query_unescape-unreserved :
    (c : ℕ) (t : Text)
    → unreserved c ≡ true
    → query_unescape (c ∷ t) ≡ plain_byte c (query_unescape t)
unfolding query_unescape
query_unescape-unreserved c [] h =
    rw (unreserved-not_special c h).0 (rw (unreserved-not_special c h).1 refl)
query_unescape-unreserved c (d ∷ []) h =
    rw (unreserved-not_special c h).0 (rw (unreserved-not_special c h).1 refl)
query_unescape-unreserved c (d ∷ e ∷ t) h =
    rw (unreserved-not_special c h).0 (rw (unreserved-not_special c h).1 refl)

abbrev pub put_bytes : List ℕ → Option (List ℕ) → Option (List ℕ)
put_bytes [] o = o
put_bytes (b ∷ bs) o = plain_byte b (put_bytes bs o)

pub put_bytes-some : (bs cs : List ℕ) → put_bytes bs (some cs) ≡ some (bs ++ cs)
put_bytes-some [] cs = refl
put_bytes-some (b ∷ bs) cs = rw (put_bytes-some bs cs)

pub query_unescape-escape :
    (bs : List ℕ) (t : Text)
    → All IsByte bs
    → query_unescape (escape bs ++ t) ≡ put_bytes bs (query_unescape t)
unfolding escape
query_unescape-escape [] t h = refl
query_unescape-escape (b ∷ bs) t (h, k) =
    query_unescape-escaped b (escape bs ++ t) h ∙ ap (plain_byte b) (query_unescape-escape bs t k)

-- An unreserved character is its own byte.
pub utf8-unreserved : (c : ℕ) → unreserved c ≡ true → utf8 c ≡ c ∷ []
unfolding unreserved utf8
utf8-unreserved c h = ground arith

query_unescape-encode_char :
    (c : ℕ) (t : Text)
    → IsChar c
    → query_unescape (encode_char c ++ t) ≡ put_bytes (utf8 c) (query_unescape t)
unfolding encode_char
query_unescape-encode_char c t h = elim (Bool-cases (unreserved c)) [
  | inl plain ↦ rw (plain, utf8-unreserved c plain) (query_unescape-unreserved c t plain)
  | inr special ↦ rw special (query_unescape-escape (utf8 c) t (utf8-IsByte c h))
]

pub query_unescape-nil : query_unescape [] ≡ some []
unfolding query_unescape
query_unescape-nil = refl

-- A server that decodes an encoded text reads the bytes of the text, whatever it holds.
pub query_unescape-encode_uri_component :
    (s : Text) → All IsChar s → query_unescape (encode_uri_component s) ≡ some (bytes s)
unfolding encode_uri_component bytes
query_unescape-encode_uri_component [] h = query_unescape-nil
query_unescape-encode_uri_component (c ∷ s) (h, k) =
    query_unescape-encode_char c (encode_uri_component s) h
    ∙ ap (put_bytes (utf8 c)) (query_unescape-encode_uri_component s k)
    ∙ put_bytes-some (utf8 c) (bytes s)

-- A character that delimits nothing in an address.
abbrev pub IsInert : ℕ → Type 0
IsInert c = (c ≢ b'&') × (c ≢ b'=') × (c ≢ b'?') × (c ≢ b'#') × (c ≢ b'/')

hex_digit-IsInert : (n : ℕ) → n < 16 → IsInert (hex_digit n)
unfolding hex_digit
hex_digit-IsInert n h = ground arith

percent-IsInert : IsInert b'%'
percent-IsInert = omega arith

pub escape-IsInert : (bs : List ℕ) → All IsByte bs → All IsInert (escape bs)
unfolding escape
escape-IsInert [] h = tt
escape-IsInert (b ∷ bs) (h, k) = (
  percent-IsInert,
  (
    hex_digit-IsInert (b / 16) (omega arith),
    (hex_digit-IsInert (b % 16) (omega arith), escape-IsInert bs k),
  ),
)

pub unreserved-IsChar : (c : ℕ) → unreserved c ≡ true → IsChar c
unfolding unreserved
unreserved-IsChar c h = ground arith

pub unreserved-IsInert : (c : ℕ) → unreserved c ≡ true → IsInert c
unfolding unreserved
unreserved-IsInert c h = ground arith

encode_char-IsInert : (c : ℕ) → IsChar c → All IsInert (encode_char c)
unfolding encode_char
encode_char-IsInert c h = elim (Bool-cases (unreserved c)) [
  | inl plain ↦ rw plain (unreserved-IsInert c plain, tt)
  | inr special ↦ rw special (escape-IsInert (utf8 c) (utf8-IsByte c h))
]

-- An encoded text holds no delimiter of an address: it cannot end its parameter or its segment.
pub encode_uri_component-IsInert : (s : Text) → All IsChar s → All IsInert (encode_uri_component s)
unfolding encode_uri_component
encode_uri_component-IsInert [] h = tt
encode_uri_component-IsInert (c ∷ s) (h, k) =
    All-append IsInert (encode_char c) (encode_uri_component s) (encode_char-IsInert c h)
      (encode_uri_component-IsInert s k)
