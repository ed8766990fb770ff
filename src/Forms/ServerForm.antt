-- ===== src/Forms/ServerForm.antt =====
-- The state of frontend/components/server-form.tsx and what it submits.
use ventopanel.Base.{ℕ, ◌≡◌, refl, Bool, true, false, Option, none, some, List, [], ◌∷◌, Text, text}
use ventopanel.Api.Fetch.{ApiCall, Outcome, ok, threw}
use ventopanel.Api.Calls.Servers.{ServerInput, create_server, update_server}
use ventopanel.Forms.Typing.{last_or}

-- `Server`, as far as the form reads it.
pub record Server : Type 0 where
  pub id : Text
  pub name : Text
  pub host : Text
  pub port : ℕ
  pub provider : Text
  pub status : Text
  pub ssh_user : Text

abbrev pub default_form : ServerInput
default_form = record {
  name = [];
  host = [];
  port = 22;
  provider = text "hetzner";
  ssh_user = text "root";
  ssh_password = [];
  status = some (text "pending");
}

-- The form of a server, with no password.
abbrev pub form_of : Server → ServerInput
form_of s = record {
  name = s.name;
  host = s.host;
  port = s.port;
  provider = s.provider;
  ssh_user = s.ssh_user;
  ssh_password = [];
  status = some s.status;
}

-- The effect that fills the form when the dialog is opened, for a server that is edited or for none.
unfoldable pub opened_form : Option Server → ServerInput
opened_form none = default_form
opened_form (some s) = form_of s

-- `set` of the fields that the dialog has.
pub data Setting : Type 0 where
  name host provider ssh_user ssh_password : Text → Setting
  port : ℕ → Setting

unfoldable pub set : Setting → ServerInput → ServerInput
set (name t) f = record f { name = t }
set (host t) f = record f { host = t }
set (port n) f = record f { port = n }
set (provider t) f = record f { provider = t }
set (ssh_user t) f = record f { ssh_user = t }
set (ssh_password t) f = record f { ssh_password = t }

unfoldable pub set_all : List Setting → ServerInput → ServerInput
set_all [] f = f
set_all (s ∷ ss) f = set_all ss (set s f)

-- The call of `handleSubmit`.
unfoldable pub submitted : {R : Type 0} → Option Server → ServerInput → ApiCall R (Option R)
submitted none form = create_server form
submitted (some server) form = update_server server.id form

-- `onOpenChange(false)` after the call: the dialog stays, if the call fails.
unfoldable pub stays_open : {A : Type 0} → Outcome A → Bool
stays_open (ok a) = false
stays_open (threw e) = true

abbrev pub name_in : Setting → Option Text
name_in (name t) = some t
name_in _ = none

abbrev pub host_in : Setting → Option Text
host_in (host t) = some t
host_in _ = none

abbrev pub port_in : Setting → Option ℕ
port_in (port n) = some n
port_in _ = none

abbrev pub provider_in : Setting → Option Text
provider_in (provider t) = some t
provider_in _ = none

abbrev pub ssh_user_in : Setting → Option Text
ssh_user_in (ssh_user t) = some t
ssh_user_in _ = none

abbrev pub ssh_password_in : Setting → Option Text
ssh_password_in (ssh_password t) = some t
ssh_password_in _ = none

-- Each field as it was typed last, or as it was.
abbrev pub typed_over : List Setting → ServerInput → ServerInput
typed_over ss f = record {
  name = last_or name_in f.name ss;
  host = last_or host_in f.host ss;
  port = last_or port_in f.port ss;
  provider = last_or provider_in f.provider ss;
  ssh_user = last_or ssh_user_in f.ssh_user ss;
  ssh_password = last_or ssh_password_in f.ssh_password ss;
  status = f.status;
}

set_all-typed_over : (ss : List Setting) (f : ServerInput) → set_all ss f ≡ typed_over ss f
unfolding set_all set
set_all-typed_over [] f = refl
set_all-typed_over (name t ∷ ss) f = set_all-typed_over ss (set (name t) f)
set_all-typed_over (host t ∷ ss) f = set_all-typed_over ss (set (host t) f)
set_all-typed_over (port n ∷ ss) f = set_all-typed_over ss (set (port n) f)
set_all-typed_over (provider t ∷ ss) f = set_all-typed_over ss (set (provider t) f)
set_all-typed_over (ssh_user t ∷ ss) f = set_all-typed_over ss (set (ssh_user t) f)
set_all-typed_over (ssh_password t ∷ ss) f = set_all-typed_over ss (set (ssh_password t) f)

-- The dialog sends for each field what was typed into it last, and for a field that was not typed what the server has,
-- or what a new server starts with; a password is sent only if one was typed.
submitted-set_all :
    (R : Type 0) (server : Option Server) (ss : List Setting)
    → submitted {R = R} server (set_all ss (opened_form server))
      ≡ submitted server (typed_over ss (opened_form server))
submitted-set_all R server ss = rw (set_all-typed_over ss (opened_form server)) refl
