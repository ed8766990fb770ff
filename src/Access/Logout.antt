-- ===== src/Access/Logout.antt =====
-- What is left of a session after logging out.
use ventopanel.Base.{
  ◌≡◌, refl, ap, if◌then◌else◌, Bool, true, false, not, Option, [], ◌&&◌, ◌||◌, Text, text, keep_if,
  arith,
}
use ventopanel.Api.Session.{
  Browser, TokenPayload, get_token, get_role, get_token_payload, clear_token,
}
use ventopanel.Access.{auth_info, links, use_auth, visible_links, use_admin_guard, handle_logout}

if_same : (b : Bool) → (if b then [] else text "") ≡ []
if_same true = refl
if_same false = refl

and_false : (b : Bool) → (b && false) ≡ false
and_false true = refl
and_false false = refl

module _ (decode : Text → Option TokenPayload) where
  get_role-handle_logout : (b : Browser) → get_role decode (handle_logout b) ≡ []
  unfolding get_role get_token_payload get_token handle_logout clear_token
  get_role-handle_logout b = ground arith

  -- After logging out there is no role, nothing may be written, exactly the links for everyone are
  -- shown, and the guard of the admin pages sends nobody away from them.
  use_auth-handle_logout :
      (b : Browser)
      → (use_auth decode (handle_logout b) ≡ auth_info [])
        × (visible_links decode (handle_logout b) ≡ keep_if (λ link. not link.admin_only) links)
        × (use_admin_guard decode (handle_logout b) ≡ handle_logout b)
  unfolding use_auth visible_links use_admin_guard
  use_auth-handle_logout b = (
    rw (get_role-handle_logout b, use_auth) (ap auth_info (if_same (handle_logout b).in_browser)),
    rw (get_role-handle_logout b, visible_links)
        (ap (λ admin. keep_if (λ link. not link.admin_only || admin) links)
          (and_false (handle_logout b).in_browser)),
    rw (get_role-handle_logout b, use_admin_guard) (ground arith),
  )
