-- ===== src/Api/Routes/Served/Account.antt =====
-- The calls of Api/Calls/Account.antt meet the routes of internal/transport/http/router.go.
use ventopanel.Base.{refl, none, [], ◌∷◌, Text, text}
use ventopanel.Api.Routes.{IsServed}
use ventopanel.Api.Routes.Filling.{IsSegment, served, checked, plain}
use ventopanel.Api.Calls.Account.{
  fetch_users, update_user_role, delete_user, fetch_me, change_password, change_email,
  fetch_api_tokens, create_api_token, revoke_api_token, setup_totp, verify_mfa, invite_user,
}

-- The arguments of the calls.
pub record Args : Type 0 where
  pub id : Text
  pub role : Text
  pub current_password : Text
  pub new_password : Text
  pub email : Text
  pub password : Text
  pub name : Text
  pub mfa_session : Text
  pub code : Text

-- What the source puts in a path as it is must be a segment, and what it encodes a text.
pub record IsUsable (a : Args) : Type 0 where
  pub id : IsSegment a.id

abbrev pub AllAccount : Type 0 → Args → Type 0
AllAccount R a =
    IsServed (fetch_users {T = R})
    × IsServed (update_user_role {R = R} id role)
    × IsServed (delete_user {R = R} id)
    × IsServed (fetch_me {R = R})
    × IsServed (change_password {R = R} current_password new_password)
    × IsServed (change_email {R = R} email password)
    × IsServed (fetch_api_tokens {T = R})
    × IsServed (create_api_token {R = R} name)
    × IsServed (revoke_api_token {R = R} id)
    × IsServed (setup_totp {R = R})
    × IsServed (verify_mfa {R = R} mfa_session code)
    × IsServed (invite_user {R = R} email password role)
  where
    open a use {id, role, current_password, new_password, email, password, name, mfa_session, code}

pub account-served : (R : Type 0) (a : Args) → IsUsable a → AllAccount R a
unfolding fetch_users update_user_role delete_user fetch_me change_password change_email
    fetch_api_tokens create_api_token revoke_api_token setup_totp verify_mfa invite_user
account-served R a h = (
  served 91 _ (text "users") ([]) none refl (refl, tt) (checked (text "users") refl) tt tt,
  served 92 _ (text "users") (id ∷ text "role" ∷ []) none refl (refl, (refl, tt))
      (checked (text "users") refl) (plain _ h.id, (checked (text "role") refl, tt)) tt,
  served 93 _ (text "users") (id ∷ []) none refl (refl, tt) (checked (text "users") refl)
      (plain _ h.id, tt) tt,
  served 87 _ (text "users") (text "me" ∷ []) none refl (refl, (refl, tt))
      (checked (text "users") refl) (checked (text "me") refl, tt) tt,
  served 88 _ (text "users") (text "me" ∷ text "password" ∷ []) none refl (refl, (refl, (refl, tt)))
      (checked (text "users") refl) (checked (text "me") refl, (checked (text "password") refl, tt))
      tt,
  served 89 _ (text "users") (text "me" ∷ text "email" ∷ []) none refl (refl, (refl, (refl, tt)))
      (checked (text "users") refl) (checked (text "me") refl, (checked (text "email") refl, tt))
      tt,
  served 7 _ (text "api-tokens") ([]) none refl (refl, tt) (checked (text "api-tokens") refl) tt tt,
  served 8 _ (text "api-tokens") ([]) none refl (refl, tt) (checked (text "api-tokens") refl) tt tt,
  served 9 _ (text "api-tokens") (id ∷ []) none refl (refl, tt) (checked (text "api-tokens") refl)
      (plain _ h.id, tt) tt,
  served 4 _ (text "auth") (text "totp" ∷ text "setup" ∷ []) none refl (refl, (refl, (refl, tt)))
      (checked (text "auth") refl) (checked (text "totp") refl, (checked (text "setup") refl, tt))
      tt,
  served 2 _ (text "auth") (text "mfa" ∷ []) none refl (refl, (refl, tt))
      (checked (text "auth") refl) (checked (text "mfa") refl, tt) tt,
  served 90 _ (text "users") (text "invite" ∷ []) none refl (refl, (refl, tt))
      (checked (text "users") refl) (checked (text "invite") refl, tt) tt,
)
  where
    open a use {id, role, current_password, new_password, email, password, name, mfa_session, code}
