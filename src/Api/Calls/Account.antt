-- ===== src/Api/Calls/Account.antt =====
-- The calls of frontend/lib/api.ts for users, the own profile, API tokens and the second factor.
use ventopanel.Base.{Option, List, [], ◌∷◌, ◌++◌, Text, text}
use ventopanel.Api.Fetch.{
  post, patch, delete, str, ApiCall, plain, with_method, with_body, ListResponse, items_or_empty,
  whole, ignored,
}

unfoldable pub fetch_users : {T : Type 0} → ApiCall (ListResponse T) (List T)
fetch_users = record { path = text "/users"; options = plain; finish = items_or_empty }

unfoldable pub update_user_role : {R : Type 0} → Text → Text → ApiCall R (Unit {0})
update_user_role id role = record {
  path = text "/users/" ++ (id ++ text "/role");
  options = with_body patch ((text "role", str role) ∷ []);
  finish = ignored;
}

unfoldable pub delete_user : {R : Type 0} → Text → ApiCall R (Option R)
delete_user id = record {
  path = text "/users/" ++ id;
  options = with_method delete;
  finish = whole;
}

unfoldable pub fetch_me : {R : Type 0} → ApiCall R (Option R)
fetch_me = record { path = text "/users/me"; options = plain; finish = whole }

unfoldable pub change_password : {R : Type 0} → Text → Text → ApiCall R (Unit {0})
change_password current_password new_password = record {
  path = text "/users/me/password";
  options = with_body patch (
      (text "current_password", str current_password)
      ∷ (text "new_password", str new_password)
      ∷ []);
  finish = ignored;
}

unfoldable pub change_email : {R : Type 0} → Text → Text → ApiCall R (Unit {0})
change_email email password = record {
  path = text "/users/me/email";
  options = with_body patch ((text "email", str email) ∷ (text "password", str password) ∷ []);
  finish = ignored;
}

unfoldable pub fetch_api_tokens : {T : Type 0} → ApiCall (ListResponse T) (List T)
fetch_api_tokens = record { path = text "/api-tokens"; options = plain; finish = items_or_empty }

unfoldable pub create_api_token : {R : Type 0} → Text → ApiCall R (Option R)
create_api_token name = record {
  path = text "/api-tokens";
  options = with_body post ((text "name", str name) ∷ []);
  finish = whole;
}

unfoldable pub revoke_api_token : {R : Type 0} → Text → ApiCall R (Unit {0})
revoke_api_token id = record {
  path = text "/api-tokens/" ++ id;
  options = with_method delete;
  finish = ignored;
}

unfoldable pub setup_totp : {R : Type 0} → ApiCall R (Option R)
setup_totp = record { path = text "/auth/totp/setup"; options = plain; finish = whole }

unfoldable pub verify_mfa : {R : Type 0} → Text → Text → ApiCall R (Option R)
verify_mfa mfa_session code = record {
  path = text "/auth/mfa";
  options = with_body post ((text "mfa_session", str mfa_session) ∷ (text "code", str code) ∷ []);
  finish = whole;
}

unfoldable pub invite_user : {R : Type 0} → Text → Text → Text → ApiCall R (Option R)
invite_user email password role = record {
  path = text "/users/invite";
  options =
      with_body post (
        (text "email", str email) ∷ (text "password", str password) ∷ (text "role", str role) ∷ []);
  finish = whole;
}
