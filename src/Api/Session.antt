-- ===== src/Api/Session.antt =====
-- frontend/lib/api.ts: the token in the browser's storage, and what is read out of it. Base64 and
-- JSON are the browser's: `decode` stands for `JSON.parse(atob(...))` on a text that `atob` accepts.
pub mod Validity
use ventopanel.Base.{
  ℕ, ◌*◌, ltb, leb, ◌==◌, if◌then◌else◌, Bool, true, false, ◌&&◌, ◌||◌, Option, none, some, List,
  [], ◌∷◌, Text, text, truthy, split_on, get_elem?, all,
}

-- What the module's functions read and write: the entry `vp_token` of the local storage, and the
-- window's address. `in_browser` is false while the server renders a page.
pub record Browser : Type 0 where
  pub in_browser : Bool
  pub token : Option Text
  pub location : Text

pub record TokenPayload : Type 0 where
  pub uid : Option Text
  pub tid : Option Text
  pub role : Option Text
  pub email : Option Text
  pub totp_enabled : Option Bool
  pub exp : Option ℕ

unfoldable pub get_token : Browser → Option Text
get_token b = if b.in_browser then b.token else none

unfoldable pub set_token : Text → Browser → Browser
set_token t b = record b { token = some t }

unfoldable pub clear_token : Browser → Browser
clear_token b = record b { token = none }

-- The characters that `atob` takes: the base64 alphabet, without the `-` and `_` of base64url, and the spaces of ASCII,
-- which it leaves out.
abbrev pub atob_reads : ℕ → Bool
atob_reads c =
    leb b'A' c && leb c b'Z'
    || leb b'a' c && leb c b'z'
    || leb b'0' c && leb c b'9'
    || c == b'+'
    || c == b'/'
    || c == b'='
    || c == 9
    || c == 10
    || c == 12
    || c == 13
    || c == 32

-- A token that is there and is not the empty text.
abbrev pub present : Option Text → Option Text
present none = none
present (some t) = if truthy t then some t else none

abbrev pub in_force : ℕ → Option ℕ → Bool
in_force now none = false
in_force now (some exp) = ltb now (exp * 1000)

abbrev pub payload_in_force : ℕ → Option TokenPayload → Bool
payload_in_force now none = false
payload_in_force now (some p) = in_force now p.exp

abbrev pub role_of : Option TokenPayload → Text
role_of none = []
role_of (some p) = elim p.role [ none ↦ [] | some r ↦ r ]

module _ (decode : Text → Option TokenPayload) where
  -- `JSON.parse(atob(part))`; `none` stands for an exception.
  abbrev pub parse_part : Option Text → Option TokenPayload
  parse_part none = none
  parse_part (some part) = if all atob_reads part then decode part else none

  -- `token.split(".")[1]`, parsed.
  abbrev pub token_payload : Text → Option TokenPayload
  token_payload t = parse_part (get_elem? (split_on b'.' t) 1)

  -- `now` is `Date.now()`, in milliseconds.
  unfoldable pub is_token_valid : ℕ → Browser → Bool
  unfolding get_token
  is_token_valid now b = elim (present (get_token b)) [
    | none ↦ false
    | some t ↦ payload_in_force now (token_payload t)
  ]

  unfoldable pub get_token_payload : Browser → Option TokenPayload
  unfolding get_token
  get_token_payload b = elim (present (get_token b)) [ none ↦ none | some t ↦ token_payload t ]

  unfoldable pub get_role : Browser → Text
  unfolding get_token_payload
  get_role b = role_of (get_token_payload b)
