-- ===== src/Login/Landing.antt =====
-- Where a login of Login/Page.antt leads: the dashboard checks the session at once, by Access/Layout.antt.
use ventopanel.Base.{Bool, false, ◌||◌, ◌==◌, [], ◌∷◌, ◌++◌, Text}

-- A token of three parts.
abbrev pub jwt : Text → Text → Text → Text
jwt head payload signature = head ++ b'.' ∷ (payload ++ b'.' ∷ signature)

-- A text with a character that base64url has in place of one of base64.
abbrev pub has_url_char : Text → Bool
has_url_char [] = false
has_url_char (c ∷ s) = c == b'-' || c == b'_' || has_url_char s
