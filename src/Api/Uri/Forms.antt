-- ===== src/Api/Uri/Forms.antt =====
-- `URLSearchParams`: the encoding of a form, which writes a space as `+`.
use ventopanel.Base.{
  ℕ, ◌≡◌, refl, ◌∙◌, ap, leb, ◌==◌, if◌then◌else◌, Bool, true, ◌&&◌, ◌||◌, Bool-cases, inl, inr,
  some, [], ◌∷◌, ◌++◌, All, All-append, Text, arith,
}
use ventopanel.Api.Uri.{unreserved, utf8, escape, bytes, plain_byte, query_unescape}
use ventopanel.Api.Uri.Laws.{
  IsChar, IsInert, utf8-IsByte, utf8-unreserved, put_bytes, put_bytes-some, query_unescape-nil,
  query_unescape-unreserved, query_unescape-escape, unreserved-IsInert, escape-IsInert,
}
use ventopanel.Api.Uri.Queries.{IsEncoder}

-- Letters, digits and `*-._`.
unfoldable pub form_plain : ℕ → Bool
form_plain c =
    leb b'A' c && leb c b'Z'
    || leb b'a' c && leb c b'z'
    || leb b'0' c && leb c b'9'
    || c == 0x2a
    || c == 0x2d
    || c == 0x2e
    || c == 0x5f

unfoldable pub form_char : ℕ → Text
form_char c = if form_plain c then c ∷ [] else if c == 0x20 then b'+' ∷ [] else escape (utf8 c)

unfoldable pub form_encode : Text → Text
form_encode [] = []
form_encode (c ∷ s) = form_char c ++ form_encode s

form_plain-unreserved : (c : ℕ) → form_plain c ≡ true → unreserved c ≡ true
unfolding form_plain unreserved
form_plain-unreserved c h = ground arith

query_unescape-space : (t : Text) → query_unescape (b'+' ∷ t) ≡ plain_byte 0x20 (query_unescape t)
unfolding query_unescape
query_unescape-space [] = refl
query_unescape-space (d ∷ []) = refl
query_unescape-space (d ∷ e ∷ t) = refl

utf8-space : utf8 0x20 ≡ 0x20 ∷ []
unfolding utf8
utf8-space = refl

query_unescape-form_char :
    (c : ℕ) (t : Text)
    → IsChar c
    → query_unescape (form_char c ++ t) ≡ put_bytes (utf8 c) (query_unescape t)
unfolding form_char
query_unescape-form_char c t h = elim (Bool-cases (form_plain c)) [
  | inl plain ↦
      let safe = form_plain-unreserved c plain in
      rw (plain, utf8-unreserved c safe) (query_unescape-unreserved c t safe)
  | inr other ↦ elim (Bool-cases (c == 0x20)) [
    | inl space ↦
        let same : c ≡ 0x20 = ground arith in
        rw (other, space) (rw same (rw utf8-space (query_unescape-space t)))
    | inr special ↦ rw (other, special) (query_unescape-escape (utf8 c) t (utf8-IsByte c h))
  ]
]

form_encode-decodes : (s : Text) → All IsChar s → query_unescape (form_encode s) ≡ some (bytes s)
unfolding form_encode bytes
form_encode-decodes [] h = query_unescape-nil
form_encode-decodes (c ∷ s) (h, k) =
    query_unescape-form_char c (form_encode s) h
    ∙ ap (put_bytes (utf8 c)) (form_encode-decodes s k)
    ∙ put_bytes-some (utf8 c) (bytes s)

form_char-IsInert : (c : ℕ) → IsChar c → All IsInert (form_char c)
unfolding form_char
form_char-IsInert c h = elim (Bool-cases (form_plain c)) [
  | inl plain ↦ rw plain (unreserved-IsInert c (form_plain-unreserved c plain), tt)
  | inr other ↦ elim (Bool-cases (c == 0x20)) [
    | inl space ↦ rw (other, space) (omega arith, tt)
    | inr special ↦ rw (other, special) (escape-IsInert (utf8 c) (utf8-IsByte c h))
  ]
]

form_encode-IsInert : (s : Text) → All IsChar s → All IsInert (form_encode s)
unfolding form_encode
form_encode-IsInert [] h = tt
form_encode-IsInert (c ∷ s) (h, k) =
    All-append IsInert (form_char c) (form_encode s) (form_char-IsInert c h)
      (form_encode-IsInert s k)

-- So a server reads back the parameters of a form too.
pub form_encode-IsEncoder : IsEncoder form_encode
form_encode-IsEncoder = record { decodes = form_encode-decodes; inert = form_encode-IsInert }
