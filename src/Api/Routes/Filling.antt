-- ===== src/Api/Routes/Filling.antt =====
-- A path that fills a route's pattern is accepted by that route, whatever the parameters hold, if they
-- are segments.
use mathlib.Core.Path.{subst}
use ventopanel.Base.{
  ℕ, zero, suc, ◌≡◌, ◌≢◌, ◌||◌, leb, refl, ap, ap₂, map, All-map, text, text_eq, ◌∙◌, sym, ◌==◌,
  Bool, true, false, not, ◌&&◌, ◌||◌, Option, none, some, List, [], ◌∷◌, ◌++◌, append-nil, Text,
  text_eq_refl, truthy, split_on, Without, split_on-append, split_on_of_Without, All, get_elem?,
  all, arith,
}
use ventopanel.Api.Uri.{unreserved, bytes, plain_byte, encode_uri_component}
use ventopanel.Api.Uri.Laws.{
  IsChar, IsInert, put_bytes, put_bytes-some, encode_uri_component-IsInert,
}
use ventopanel.Api.Uri.Paths.{
  path_unescape, path_unescape-char, path_unescape_of_Without, path_unescape-encode_uri_component,
  bytes-Without, bytes-truthy, encode_uri_component-text_eq,
}
use ventopanel.Api.Fetch.{Method}
use ventopanel.Api.Routes.{
  Segment, lit, param, Route, same_method, before_query, is_dots, matches, accepts, served_by,
  routes,
}

-- The bytes that a server reads in a segment.
abbrev pub decoded : Text → List ℕ
decoded v = elim (path_unescape v) [ none ↦ [] | some d ↦ d ]

-- A text that a server reads as one segment of a path, wherever it stands in the path.
pub record Fills (v : Text) : Type 0 where
  pub reads : (t : Text) → path_unescape (v ++ t) ≡ put_bytes (decoded v) (path_unescape t)
  pub filled : truthy (decoded v) ≡ true
  pub one : Without b'/' (decoded v)
  pub slashes : Without b'/' v
  pub ends : All (λ c. (c ≢ b'?') × (c ≢ b'#')) v
  pub dots : is_dots v ≡ false

-- One value for each segment: a parameter's, or the literal itself.
abbrev pub Fits : List Segment → List Text → Type 0
Fits [] [] = Unit {0}
Fits [] (v ∷ vs) = ⊥
Fits (p ∷ ps) [] = ⊥
Fits (lit t ∷ ps) (v ∷ vs) = (t ≡ decoded v) × Fits ps vs
Fits (param ∷ ps) (v ∷ vs) = Fits ps vs

-- What follows the path: nothing, or a query.
abbrev pub IsTail : Text → Type 0
IsTail [] = Unit {0}
IsTail (c ∷ s) = c ≡ b'?'

-- `/v1/v2…` and the tail.
abbrev pub joined : List Text → Text → Text
joined [] tail = tail
joined (v ∷ vs) tail = b'/' ∷ v ++ joined vs tail

matches_of_Fits :
    (ps : List Segment) (vs : List Text)
    → Fits ps vs
    → All Fills vs
    → matches ps (map decoded vs) ≡ true
matches_of_Fits [] [] f h = refl
matches_of_Fits [] (v ∷ vs) f h = absurd f
matches_of_Fits (p ∷ ps) [] f h = absurd f
matches_of_Fits (lit t ∷ ps) (v ∷ vs) (e, f) (h, k) =
    ap₂ ◌&&◌ (ap (λ u. text_eq u (decoded v)) e ∙ text_eq_refl (decoded v))
      (matches_of_Fits ps vs f k)
matches_of_Fits (param ∷ ps) (v ∷ vs) f (h, k) = ap₂ ◌&&◌ h.filled (matches_of_Fits ps vs f k)

before_query-append :
    (s t : Text)
    → All (λ c. (c ≢ b'?') × (c ≢ b'#')) s
    → before_query (s ++ t) ≡ s ++ before_query t
before_query-append [] t h = refl
before_query-append (c ∷ s) t (h, k) = ground (arith, before_query-append s t k)

before_query-joined :
    (vs : List Text) (tail : Text)
    → All Fills vs
    → IsTail tail
    → before_query (joined vs tail) ≡ joined vs []
before_query-joined [] [] h t = refl
before_query-joined [] (c ∷ s) h t = ground arith
before_query-joined (v ∷ vs) tail (h, k) t =
    ap (◌∷◌ b'/') (
      before_query-append v (joined vs tail) h.ends ∙ ap (◌++◌ v) (before_query-joined vs tail k t))

-- The path is read as the path of what its segments are read as.
path_unescape-joined :
    (vs : List Text)
    → All Fills vs
    → path_unescape (joined vs []) ≡ some (joined (map decoded vs) [])
path_unescape-joined [] h = refl
path_unescape-joined (v ∷ vs) (h, k) =
    path_unescape-char b'/' (v ++ joined vs []) refl
    ∙ ap (plain_byte b'/') (
        h.reads (joined vs [])
        ∙ ap (put_bytes (decoded v)) (path_unescape-joined vs k)
        ∙ put_bytes-some (decoded v) (joined (map decoded vs) []))

split_on-joined :
    (v : Text) (vs : List Text)
    → Without b'/' v
    → All (Without b'/') vs
    → split_on b'/' (v ++ joined vs []) ≡ v ∷ vs
split_on-joined v [] h k = rw append-nil (split_on_of_Without b'/' v h)
split_on-joined v (w ∷ vs) h (k, l) =
    split_on-append b'/' v (w ++ joined vs []) h ∙ ap (◌∷◌ v) (split_on-joined w vs k l)

slashes_of_Fills : (vs : List Text) → All Fills vs → All (Without b'/') vs
slashes_of_Fills [] h = tt
slashes_of_Fills (v ∷ vs) (h, k) = (h.slashes, slashes_of_Fills vs k)

one_of_Fills : (vs : List Text) → All Fills vs → All (Without b'/') (map decoded vs)
one_of_Fills [] h = tt
one_of_Fills (v ∷ vs) (h, k) = (h.one, one_of_Fills vs k)

no_dots : (vs : List Text) → All Fills vs → all (λ s. not (is_dots s)) vs ≡ true
no_dots [] h = refl
no_dots (v ∷ vs) (h, k) = ap₂ ◌&&◌ (ap not h.dots) (no_dots vs k)

same_method_refl : (m : Method) → same_method m m ≡ true
same_method_refl Method.get = refl
same_method_refl Method.post = refl
same_method_refl Method.put = refl
same_method_refl Method.patch = refl
same_method_refl Method.delete = refl

-- What `accepts` asks of a path, where the path is these segments.
accepts_of_parts :
    (r : Route) (url : Text) (v : Text) (vs : List Text)
    → before_query url ≡ joined (v ∷ vs) []
    → Fits r.pattern (v ∷ vs)
    → All Fills (v ∷ vs)
    → accepts r r.method url ≡ true
accepts_of_parts r url v vs e f (h, k) =
    let d : List ℕ = decoded v in
    let ds : List Text = map decoded vs in
    let raw = split_on-joined v vs h.slashes (slashes_of_Fills vs k) in
    let split = split_on-joined d ds h.one (one_of_Fills vs k) in
    ap₂ ◌&&◌ (same_method_refl r.method) (
      ap₂ ◌&&◌
        (ap (λ path. all (λ s. not (is_dots s)) (split_on b'/' path)) e
          ∙ ap (λ parts. all (λ s. not (is_dots s)) ([] ∷ parts)) raw
          ∙ no_dots (v ∷ vs) (h, k))
        (ap
            (λ path. elim (path_unescape path) [
              | none ↦ false
              | some bs ↦ matches (lit [] ∷ r.pattern) (split_on b'/' bs)
            ])
            e
          ∙ ap
              (λ o. elim o [
                | none ↦ false
                | some bs ↦ matches (lit [] ∷ r.pattern) (split_on b'/' bs)
              ])
              (path_unescape-joined (v ∷ vs) (h, k))
          ∙ ap (λ parts. matches (lit [] ∷ r.pattern) ([] ∷ parts)) split
          ∙ matches_of_Fits r.pattern (v ∷ vs) f (h, k)))

pub accepts-joined :
    (r : Route) (v : Text) (vs : List Text) (tail : Text)
    → Fits r.pattern (v ∷ vs)
    → Fills v
    → All Fills vs
    → IsTail tail
    → accepts r r.method (joined (v ∷ vs) tail) ≡ true
accepts-joined r v vs tail f h k t =
    accepts_of_parts r (joined (v ∷ vs) tail) v vs (before_query-joined (v ∷ vs) tail (h, k) t) f
      (h, k)

or-true : (b : Bool) → b || true ≡ true
or-true true = refl
or-true false = refl

-- A route of a table serves what it accepts.
pub served_by_of_accepts :
    (rs : List Route) (n : ℕ) (r : Route) (m : Method) (url : Text)
    → get_elem? rs n ≡ some r
    → accepts r m url ≡ true
    → served_by rs m url ≡ true
unfolding served_by
served_by_of_accepts [] n r m url e a = cc
served_by_of_accepts (q ∷ rs) zero r m url e a =
    let same : r ≡ q = cc in
    let first : accepts q m url ≡ true = subst (λ p. accepts p m url ≡ true) same a in
    ap (λ b. b || served_by rs m url) first
served_by_of_accepts (q ∷ rs) (suc n) r m url e a =
    ap (λ b. accepts q m url || b) (served_by_of_accepts rs n r m url e a)
    ∙ or-true (accepts q m url)

-- The same path, without an empty text at its end, as the client writes it.
abbrev pub url_of : Text → List Text → Option Text → Text
url_of v [] none = b'/' ∷ v
url_of v [] (some tail) = b'/' ∷ v ++ tail
url_of v (w ∷ vs) tail = b'/' ∷ v ++ url_of w vs tail

abbrev pub tail_of : Option Text → Text
tail_of none = []
tail_of (some tail) = tail

url_of-joined :
    (v : Text) (vs : List Text) (tail : Option Text)
    → url_of v vs tail ≡ joined (v ∷ vs) (tail_of tail)
url_of-joined v [] none = ap (◌∷◌ b'/') (sym (append-nil v))
url_of-joined v [] (some tail) = refl
url_of-joined v (w ∷ vs) tail = ap (λ t. b'/' ∷ v ++ t) (url_of-joined w vs tail)

-- A path that fills the pattern of a route in the table is served.
pub served :
    (n : ℕ) (r : Route) (v : Text) (vs : List Text) (tail : Option Text)
    → get_elem? routes n ≡ some r
    → Fits r.pattern (v ∷ vs)
    → Fills v
    → All Fills vs
    → IsTail (tail_of tail)
    → served_by routes r.method (url_of v vs tail) ≡ true
served n r v vs tail e f h k t = rw (url_of-joined v vs tail) (
    served_by_of_accepts routes n r r.method (joined (v ∷ vs) (tail_of tail)) e
      (accepts-joined r v vs (tail_of tail) f h k t))

-- A text that is read as these bytes.
fills_of :
    (v : Text) (d : List ℕ)
    → ((t : Text) → path_unescape (v ++ t) ≡ put_bytes d (path_unescape t))
    → truthy d ≡ true
    → Without b'/' d
    → Without b'/' v
    → All (λ c. (c ≢ b'?') × (c ≢ b'#')) v
    → is_dots v ≡ false
    → Fills v
fills_of v d reads filled one slashes ends dots =
    let whole : path_unescape v ≡ some d =
      ap path_unescape (sym (append-nil v))
      ∙ reads []
      ∙ put_bytes-some d []
      ∙ ap some (append-nil d) in
    let same : d ≡ decoded v =
      sym (ap (λ o. elim o as (λ _. List ℕ) [ none ↦ [] | some bs ↦ bs ]) whole) in
    record {
      reads =
          subst (λ bs. (t : Text) → path_unescape (v ++ t) ≡ put_bytes bs (path_unescape t)) same
            reads;
      filled = subst (λ bs. truthy bs ≡ true) same filled;
      one = subst (Without b'/') same one;
      slashes = slashes;
      ends = ends;
      dots = dots;
    }

-- A letter, a digit, or one of `-`, `.`, `_` and `~`: what stands for itself in an address.
abbrev pub is_plain : ℕ → Bool
is_plain c =
    leb b'A' c && leb c b'Z'
    || leb b'a' c && leb c b'z'
    || leb b'0' c && leb c b'9'
    || c == b'-'
    || c == b'.'
    || c == b'_'
    || c == b'~'

-- A text that is one segment of a path as it is: of these characters, not empty, and not `.` or `..`.
abbrev pub IsSegment : Text → Type 0
IsSegment s = (truthy s ≡ true) × (all is_plain s ≡ true) × (is_dots s ≡ false)

plain-Without : (s : Text) → all is_plain s ≡ true → Without b'/' s
plain-Without [] h = tt
plain-Without (c ∷ s) h = (ground arith, plain-Without s (ground arith))

plain-Without-percent : (s : Text) → all is_plain s ≡ true → Without b'%' s
plain-Without-percent [] h = tt
plain-Without-percent (c ∷ s) h = (ground arith, plain-Without-percent s (ground arith))

pub plain-ends : (s : Text) → all is_plain s ≡ true → All (λ c. (c ≢ b'?') × (c ≢ b'#')) s
plain-ends [] h = tt
plain-ends (c ∷ s) h = ((ground arith, ground arith), plain-ends s (ground arith))

pub plain : (s : Text) → IsSegment s → Fills s
plain s (filled, h, dots) =
    fills_of s s (λ t. path_unescape_of_Without s t (plain-Without-percent s h)) filled
      (plain-Without s h) (plain-Without s h) (plain-ends s h) dots

-- A literal segment is checked by evaluation.
pub checked : (s : Text) → (truthy s && (all is_plain s && not (is_dots s))) ≡ true → Fills s
checked s h = plain s (ground arith, ground arith, ground arith)

-- A text that is not empty, without `/`, and not `.` or `..`.
abbrev pub IsWord : Text → Type 0
IsWord s = (truthy s ≡ true) × All IsChar s × Without b'/' s × (is_dots s ≡ false)

encode_uri_component-is_dots : (s : Text) → is_dots (encode_uri_component s) ≡ is_dots s
unfolding unreserved
encode_uri_component-is_dots s =
    ap₂ ◌||◌ (encode_uri_component-text_eq s (text ".") (refl, tt))
      (encode_uri_component-text_eq s (text "..") (refl, (refl, tt)))

inert-ends : (s : Text) → All IsInert s → All (λ c. (c ≢ b'?') × (c ≢ b'#')) s
inert-ends [] h = tt
inert-ends (c ∷ s) (h, k) = ((h.2, h.3), inert-ends s k)

-- What is encoded becomes one segment.
pub encoded : (s : Text) → IsWord s → Fills (encode_uri_component s)
encoded s (filled, chars, slashes, dots) =
    let inert = encode_uri_component-IsInert s chars in
    fills_of (encode_uri_component s) (bytes s) (λ t. path_unescape-encode_uri_component s t chars)
      (bytes-truthy s filled) (bytes-Without s slashes)
      (All-map IsInert (λ c. c ≢ b'/') _ (λ c h. h.4) inert)
      (inert-ends (encode_uri_component s) inert) (encode_uri_component-is_dots s ∙ dots)
