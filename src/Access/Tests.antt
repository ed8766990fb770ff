-- ===== src/Access/Tests.antt =====
-- Runs of the definitions for frontend/hooks/use-auth.ts and frontend/components/nav.tsx, and the theorem
-- at a concrete input.
use ventopanel.Base.{◌≡◌, refl, true, false, Option, some, none, Text, text, length}
use ventopanel.Api.Session.{Browser, TokenPayload, get_role, get_token_payload, get_token}
use ventopanel.Access.{auth_info, visible_links, use_admin_guard}

abbrev viewer_payload : TokenPayload
viewer_payload = record {
  uid = none;
  tid = none;
  role = some (text "editor");
  email = none;
  totp_enabled = none;
  exp = none;
}

abbrev decode : Text → Option TokenPayload
decode part = some viewer_payload

abbrev editor : Browser
editor = record { in_browser = true; token = some (text "h.p.s"); location = text "/users" }

editor_sees : length (visible_links decode editor) ≡ 13
unfolding visible_links get_role get_token_payload get_token
editor_sees = refl

editor_is_sent_home : (use_admin_guard decode editor).location ≡ text "/"
unfolding use_admin_guard get_role get_token_payload get_token
editor_is_sent_home = refl

-- The comment beside the field says admin or editor.
admin_is_no_editor : (auth_info (text "admin")).is_editor ≡ false
admin_is_no_editor = refl
