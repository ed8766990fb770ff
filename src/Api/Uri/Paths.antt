-- ===== src/Api/Uri/Paths.antt =====
-- How a server that matches the decoded path of an address, `URL.Path` of Go, reads what frontend/lib/api.ts puts into a path.
use ventopanel.Base.{
  ℕ, ◌/◌, ◌%◌, ◌≡◌, ◌≢◌, refl, ap, ◌∙◌, ◌==◌, if◌then◌else◌, true, false, ◌&&◌, Bool-cases, inl,
  inr, Option, none, some, List, [], ◌∷◌, ◌++◌, All, All-append, Text, text_eq, truthy, Without,
  arith,
}
use ventopanel.Api.Uri.{
  unreserved, utf8, hex_digit, escape, encode_char, encode_uri_component, bytes, hex_value, byte_of,
  plain_byte,
}
use ventopanel.Api.Uri.Laws.{
  IsChar, IsByte, hex_value-hex_digit, put_bytes, utf8-IsByte, utf8-unreserved,
}

-- The bytes of a path: `%` and two hexadecimal digits are one.
abbrev pub path_unescape : Text → Option (List ℕ)
path_unescape [] = some []
path_unescape (c ∷ []) = if c == b'%' then none else some (c ∷ [])
path_unescape (c ∷ d ∷ []) =
    let rest = path_unescape (d ∷ []) in if c == b'%' then none else plain_byte c rest
path_unescape (c ∷ d ∷ e ∷ s) =
    let escaped = byte_of (hex_value d) (hex_value e) (path_unescape s) in
    let plain = plain_byte c (path_unescape (d ∷ e ∷ s)) in if c == b'%' then escaped else plain

pub path_unescape-char :
    (c : ℕ) (t : Text)
    → (c == b'%') ≡ false
    → path_unescape (c ∷ t) ≡ plain_byte c (path_unescape t)
path_unescape-char c [] h = rw h refl
path_unescape-char c (d ∷ []) h = rw h refl
path_unescape-char c (d ∷ e ∷ t) h = rw h refl

byte_of-plain_byte :
    (a b : ℕ) (o : Option (List ℕ))
    → a ≡ b
    → byte_of (some (b / 16)) (some (b % 16)) o ≡ plain_byte b o
byte_of-plain_byte a b none e = refl
byte_of-plain_byte a b (some bs) e = ap (λ n. some (n ∷ bs)) (omega arith)

path_unescape-escaped :
    (b : ℕ) (t : Text)
    → IsByte b
    → path_unescape (b'%' ∷ hex_digit (b / 16) ∷ hex_digit (b % 16) ∷ t)
      ≡ plain_byte b (path_unescape t)
path_unescape-escaped b t h =
    rw (hex_value-hex_digit (b / 16) (omega arith), hex_value-hex_digit (b % 16) (omega arith))
      (byte_of-plain_byte b b (path_unescape t) refl)

path_unescape-escape :
    (bs : List ℕ) (t : Text)
    → All IsByte bs
    → path_unescape (escape bs ++ t) ≡ put_bytes bs (path_unescape t)
unfolding escape
path_unescape-escape [] t h = refl
path_unescape-escape (b ∷ bs) t (h, k) =
    path_unescape-escaped b (escape bs ++ t) h ∙ ap (plain_byte b) (path_unescape-escape bs t k)

unreserved-no_percent : (c : ℕ) → unreserved c ≡ true → (c == b'%') ≡ false
unfolding unreserved
unreserved-no_percent c h = ground arith

path_unescape-encode_char :
    (c : ℕ) (t : Text)
    → IsChar c
    → path_unescape (encode_char c ++ t) ≡ put_bytes (utf8 c) (path_unescape t)
unfolding encode_char
path_unescape-encode_char c t h = elim (Bool-cases (unreserved c)) [
  | inl plain ↦
      rw (plain, utf8-unreserved c plain) (path_unescape-char c t (unreserved-no_percent c plain))
  | inr special ↦ rw special (path_unescape-escape (utf8 c) t (utf8-IsByte c h))
]

put_bytes-append :
    (bs cs : List ℕ) (o : Option (List ℕ)) → put_bytes bs (put_bytes cs o) ≡ put_bytes (bs ++ cs) o
put_bytes-append [] cs o = refl
put_bytes-append (b ∷ bs) cs o = ap (plain_byte b) (put_bytes-append bs cs o)

append_text : (s t u : Text) → (s ++ t) ++ u ≡ s ++ (t ++ u)
append_text [] t u = refl
append_text (c ∷ s) t u = ap (◌∷◌ c) (append_text s t u)

-- An encoded text is read as the bytes of the text.
pub path_unescape-encode_uri_component :
    (s t : Text)
    → All IsChar s
    → path_unescape (encode_uri_component s ++ t) ≡ put_bytes (bytes s) (path_unescape t)
unfolding encode_uri_component bytes
path_unescape-encode_uri_component [] t h = refl
path_unescape-encode_uri_component (c ∷ s) t (h, k) =
    ap path_unescape (append_text (encode_char c) (encode_uri_component s) t)
    ∙ path_unescape-encode_char c (encode_uri_component s ++ t) h
    ∙ ap (put_bytes (utf8 c)) (path_unescape-encode_uri_component s t k)
    ∙ put_bytes-append (utf8 c) (bytes s) (path_unescape t)

-- A text without `%` is read as it is.
pub path_unescape_of_Without :
    (s t : Text) → Without b'%' s → path_unescape (s ++ t) ≡ put_bytes s (path_unescape t)
path_unescape_of_Without [] t h = refl
path_unescape_of_Without (c ∷ s) t (h, k) =
    path_unescape-char c (s ++ t) (ground arith)
    ∙ ap (plain_byte c) (path_unescape_of_Without s t k)

utf8-Without : (c : ℕ) → c ≢ b'/' → Without b'/' (utf8 c)
unfolding utf8
utf8-Without c h = ground arith

pub bytes-Without : (s : Text) → Without b'/' s → Without b'/' (bytes s)
unfolding bytes
bytes-Without [] h = tt
bytes-Without (c ∷ s) (h, k) =
    All-append (λ b. b ≢ b'/') (utf8 c) (bytes s) (utf8-Without c h) (bytes-Without s k)

utf8-truthy : (c : ℕ) (t : List ℕ) → truthy (utf8 c ++ t) ≡ true
unfolding utf8
utf8-truthy c t = ground arith

pub bytes-truthy : (s : Text) → truthy s ≡ true → truthy (bytes s) ≡ true
unfolding bytes
bytes-truthy [] h = h
bytes-truthy (c ∷ s) h = utf8-truthy c (bytes s)

utf8-filled : (c : ℕ) → truthy (utf8 c) ≡ true
unfolding utf8
utf8-filled c = ground arith

unreserved-other :
    (c d : ℕ)
    → unreserved c ≡ false
    → unreserved d ≡ true
    → ((c == d) ≡ false) × ((b'%' == d) ≡ false)
unfolding unreserved
unreserved-other c d h k = ground arith

escape-text_eq :
    (bs : List ℕ) (d : ℕ) (t w : Text)
    → truthy bs ≡ true
    → (b'%' == d) ≡ false
    → text_eq (escape bs ++ t) (d ∷ w) ≡ false
unfolding escape
escape-text_eq [] d t w h k = cc
escape-text_eq (b ∷ bs) d t w h k = rw k refl

encode_char-text_eq :
    (c d : ℕ) (t w : Text)
    → unreserved d ≡ true
    → text_eq (encode_char c ++ t) (d ∷ w) ≡ ((c == d) && text_eq t w)
unfolding encode_char
encode_char-text_eq c d t w h = elim (Bool-cases (unreserved c)) [
  | inl plain ↦ rw plain refl
  | inr special ↦
      let (other, percent) = unreserved-other c d special h in
      rw (special, other) (escape-text_eq (utf8 c) d t w (utf8-filled c) percent)
]

encode_char-text_eq-nil : (c : ℕ) (t : Text) → text_eq (encode_char c ++ t) [] ≡ false
unfolding encode_char escape utf8
encode_char-text_eq-nil c t = ground arith

-- Encoding makes no text of unreserved characters that was not there.
pub encode_uri_component-text_eq :
    (s w : Text)
    → All (λ d. unreserved d ≡ true) w
    → text_eq (encode_uri_component s) w ≡ text_eq s w
unfolding encode_uri_component
encode_uri_component-text_eq [] [] h = refl
encode_uri_component-text_eq [] (d ∷ w) h = refl
encode_uri_component-text_eq (c ∷ s) [] h = encode_char-text_eq-nil c (encode_uri_component s)
encode_uri_component-text_eq (c ∷ s) (d ∷ w) (h, k) =
    encode_char-text_eq c d (encode_uri_component s) w h
    ∙ ap (λ b. (c == d) && b) (encode_uri_component-text_eq s w k)
