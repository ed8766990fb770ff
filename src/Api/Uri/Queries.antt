-- ===== src/Api/Uri/Queries.antt =====
-- The query of an address, as a server takes it apart: parameters between `&`, a name and a value
-- around the first `=`, each decoded.
use ventopanel.Base.{
  ℕ, truthy, ◌≡◌, refl, ap, sym, ◌∙◌, ◌==◌, if◌then◌else◌, true, Option, none, some, List, [], ◌∷◌,
  ◌++◌, All, All-append, All-map, Text, split_on, Without, split_on-append, split_on_of_Without,
  arith,
}
use mathlib.Core.Path.{subst}
use ventopanel.Api.Uri.{unreserved, encode_char, encode_uri_component, bytes, query_unescape}
use ventopanel.Api.Uri.Laws.{
  IsChar, unreserved-IsChar, IsInert, query_unescape-encode_uri_component,
  encode_uri_component-IsInert,
}

abbrev pub Halves : Type 0
Halves = Text × Text

abbrev pub put_before : ℕ → Halves → Halves
put_before c (k, v) = (c ∷ k, v)

-- The text before the first `d` and the text after it.
abbrev pub cut : ℕ → Text → Halves
cut d [] = ([], [])
cut d (c ∷ s) = if c == d then ([], s) else put_before c (cut d s)

abbrev pub Parameter : Type 0
Parameter = List ℕ × List ℕ

abbrev pair_of : Option (List ℕ) → Option (List ℕ) → Option Parameter
pair_of (some k) (some v) = some (k, v)
pair_of _ _ = none

abbrev cons_of : Option Parameter → Option (List Parameter) → Option (List Parameter)
cons_of (some p) (some ps) = some (p ∷ ps)
cons_of _ _ = none

abbrev pub read_parameter : Text → Option Parameter
read_parameter part =
    let halves = cut b'=' part in pair_of (query_unescape halves.0) (query_unescape halves.1)

-- An empty part is passed over.
abbrev pub read_parameters : List Text → Option (List Parameter)
read_parameters [] = some []
read_parameters (part ∷ parts) =
    let rest = read_parameters parts in
    if truthy part then cons_of (read_parameter part) rest else rest

-- `none` stands for a query that is malformed.
unfoldable pub read_query : Text → Option (List Parameter)
read_query query = read_parameters (split_on b'&' query)

-- A name that needs no escape.
abbrev pub IsName : Text → Type 0
IsName k = All (λ c. unreserved c ≡ true) k

abbrev pub Encoder : Type 0
Encoder = Text → Text

abbrev assignment : Encoder → Text → Text → Text
assignment enc k v = k ++ b'=' ∷ enc v

-- `k1=v1&k2=v2…`, each value encoded.
abbrev pub query_text : Encoder → Text → Text → List (Text × Text) → Text
query_text enc k v [] = assignment enc k v
query_text enc k v ((k', v') ∷ more) = assignment enc k v ++ b'&' ∷ query_text enc k' v' more

abbrev pub AreParameters : List (Text × Text) → Type 0
AreParameters = All (λ p. IsName p.0 × All IsChar p.1)

abbrev pub parameters : List (Text × Text) → List Parameter
parameters [] = []
parameters ((k, v) ∷ more) = (bytes k, bytes v) ∷ parameters more

pub cut-append : (d : ℕ) (s t : Text) → Without d s → cut d (s ++ d ∷ t) ≡ (s, t)
cut-append d [] t h = ground arith
cut-append d (c ∷ s) t (h, k) = ground (arith, cut-append d s t k)

pub IsInert-Without :
    (s : Text) → All IsInert s → Without b'=' s × Without b'&' s × Without b'/' s × Without b'?' s
IsInert-Without [] h = (tt, tt, tt, tt)
IsInert-Without (c ∷ s) (h, k) =
    let rest = IsInert-Without s k in ((h.1, rest.0), (h.0, rest.1), (h.4, rest.2), (h.2, rest.3))

encode_uri_component_of_IsName : (k : Text) → IsName k → encode_uri_component k ≡ k
unfolding encode_uri_component encode_char
encode_uri_component_of_IsName [] h = refl
encode_uri_component_of_IsName (c ∷ k) (h, t) =
    rw h (ap (◌∷◌ c) (encode_uri_component_of_IsName k t))

IsName-IsChar : (k : Text) → IsName k → All IsChar k
IsName-IsChar k = All-map _ _ k unreserved-IsChar

query_unescape_of_IsName : (k : Text) → IsName k → query_unescape k ≡ some (bytes k)
query_unescape_of_IsName k h =
    ap query_unescape (sym (encode_uri_component_of_IsName k h))
    ∙ query_unescape-encode_uri_component k (IsName-IsChar k h)

name-IsInert : (k : Text) → IsName k → All IsInert k
name-IsInert k h =
    subst (All IsInert) (encode_uri_component_of_IsName k h)
      (encode_uri_component-IsInert k (IsName-IsChar k h))

-- What a query needs of the function that encodes its values.
pub record IsEncoder (enc : Encoder) : Type 0 where
  pub decodes : (v : Text) → All IsChar v → query_unescape (enc v) ≡ some (bytes v)
  pub inert : (v : Text) → All IsChar v → All IsInert (enc v)

pub encode_uri_component-IsEncoder : IsEncoder encode_uri_component
encode_uri_component-IsEncoder = record {
  decodes = query_unescape-encode_uri_component;
  inert = encode_uri_component-IsInert;
}

module _ (enc : Encoder) (law : IsEncoder enc) where
  read_parameter-assignment :
      (k v : Text)
      → IsName k
      → All IsChar v
      → read_parameter (assignment enc k v) ≡ some (bytes k, bytes v)
  read_parameter-assignment k v h t =
      rw (cut-append b'=' k (enc v) (IsInert-Without k (name-IsInert k h)).0)
        (rw (query_unescape_of_IsName k h) (rw (law.decodes v t) refl))

  assignment-truthy : (k v : Text) → truthy (assignment enc k v) ≡ true
  assignment-truthy [] v = refl
  assignment-truthy (c ∷ k) v = refl

  assignment-Without : (k v : Text) → IsName k → All IsChar v → Without b'&' (assignment enc k v)
  assignment-Without k v h t =
      All-append _ k (b'=' ∷ enc v) (IsInert-Without k (name-IsInert k h)).1
        (omega arith, (IsInert-Without _ (law.inert v t)).1)

  -- A server reads back every parameter that a query was built from, with the bytes of its value,
  -- and no other: no value can add, end or change a parameter.
  pub read_query-query_text :
      (k v : Text) (more : List (Text × Text))
      → AreParameters ((k, v) ∷ more)
      → read_query (query_text enc k v more) ≡ some (parameters ((k, v) ∷ more))
  unfolding read_query
  read_query-query_text k v [] ((h, t), _) =
      rw (split_on_of_Without b'&' (assignment enc k v) (assignment-Without k v h t))
        (rw (assignment-truthy k v, read_parameter-assignment k v h t) refl)
  read_query-query_text k v ((k', v') ∷ more) ((h, t), rest) =
      rw
        (split_on-append b'&' (assignment enc k v) (query_text enc k' v' more)
          (assignment-Without k v h t))
        (rw (assignment-truthy k v, read_parameter-assignment k v h t)
          (rw (read_query-query_text k' v' more rest) refl))
