-- ===== src/Users/Page.antt =====
-- The state and the handlers of frontend/app/(dashboard)/users/page.tsx, with the dialog of
-- frontend/components/confirm-dialog.tsx. A mutation is two steps, from its click to its request and from the reply on.
use ventopanel.Base.{
  ℕ, if◌then◌else◌, Bool, false, not, ◌&&◌, Option, none, some, List, [], ◌∷◌, ◌++◌, Text, text,
  truthy, get_elem?, remove_at, pending, is_of,
}
use ventopanel.Api.Session.{Browser, TokenPayload}
use ventopanel.Api.Fetch.{Reply, Outcome, ok, threw, perform}
use ventopanel.Api.Fetch.Performed.{replying}
use ventopanel.Api.Calls.Account.{invite_user, update_user_role, delete_user}
use ventopanel.Access.{use_auth}

pub data TeamCall : Type 0 where
  invite : Text → Text → Text → TeamCall
  change_role : Text → Text → TeamCall
  delete : Text → TeamCall

-- `confirm` is the id of the user whose deletion is to be confirmed. `waiting` has the requests that wait, the oldest
-- first, and `sent` all that were sent. `mounted` is the browser when the page was mounted, of which `useAuth` keeps the
-- role.
pub record Team : Type 0 where
  pub show_invite : Bool
  pub email : Text
  pub password : Text
  pub role : Text
  pub confirm : Option Text
  pub waiting : List TeamCall
  pub sent : List TeamCall
  pub browser : Browser
  pub mounted : Browser

-- The kinds of requests: one mutation each.
abbrev pub kind_of : TeamCall → ℕ
kind_of (invite email password role) = 0
kind_of (change_role id role) = 1
kind_of (delete id) = 2

-- `isPending` of the mutation of that kind.
abbrev pub is_pending : ℕ → List TeamCall → Bool
is_pending k calls = pending (is_of kind_of k) calls

abbrev pub send : TeamCall → Team → Team
send call t = record t { waiting = t.waiting ++ call ∷ []; sent = t.sent ++ call ∷ [] }

-- The button of the form.
abbrev pub send_invite : Team → Team
send_invite t =
    if truthy t.email && truthy t.password && not (is_pending 0 t.waiting)
    then send (invite t.email t.password t.role) t
    else t

-- `onSuccess` and `onError` of the mutations, less the queries that are refreshed.
abbrev pub invite_done : {A : Type 0} → Outcome A → Team → Team
invite_done (ok invited) t = record t {
  email = [];
  password = [];
  role = text "viewer";
  show_invite = false;
}
invite_done (threw e) t = t

abbrev pub delete_done : {A : Type 0} → Outcome A → Team → Team
delete_done outcome t = record t { confirm = none }

-- `closed` is the Escape key or a click beside the dialog.
pub data Event : Type 0 where
  toggled_invite clicked_invite : Event
  typed_email typed_password chose_role : Text → Event
  changed_role : Text → Text → Event
  clicked_delete : Text → Event
  confirmed cancelled closed : Event
  replied : ℕ → Option Reply → Event

-- `parse` reads a reply that is not used, and `decode` the payload of a token.
module _ {R : Type 0} (parse : Text → Option R) (decode : Text → Option TokenPayload) where
  abbrev pub is_admin : Team → Bool
  is_admin t = (use_auth decode t.mounted).is_admin

  unfoldable pub finish : TeamCall → Option Reply → Team → Team
  finish (invite email password role) reply t =
      let (outcome, browser) =
        perform parse (replying reply) (invite_user email password role) t.browser in
      invite_done outcome (record t { browser = browser })
  finish (change_role id role) reply t = record t {
    browser = (perform parse (replying reply) (update_user_role id role) t.browser).1;
  }
  finish (delete id) reply t =
      let (outcome, browser) = perform parse (replying reply) (delete_user id) t.browser in
      delete_done outcome (record t { browser = browser })

  abbrev pub if_form : Team → Team → Team
  if_form next t = if t.show_invite && is_admin t then next else t

  -- An event that the page does not offer changes nothing.
  unfoldable pub step : Team → Event → Team
  step t toggled_invite = if is_admin t then record t { show_invite = not t.show_invite } else t
  step t (typed_email email) = if_form (record t { email = email }) t
  step t (typed_password password) = if_form (record t { password = password }) t
  step t (chose_role role) = if_form (record t { role = role }) t
  step t clicked_invite = if_form (send_invite t) t
  step t (changed_role id role) =
      if is_admin t && not (is_pending 1 t.waiting) then send (change_role id role) t else t
  step t (clicked_delete id) = if is_admin t then record t { confirm = some id } else t
  step t confirmed = elim t.confirm [
    | none ↦ t
    | some id ↦ if is_pending 2 t.waiting then t else send (delete id) t
  ]
  step t cancelled = if is_pending 2 t.waiting then t else record t { confirm = none }
  step t closed = record t { confirm = none }
  step t (replied i reply) = elim (get_elem? t.waiting i) [
    | none ↦ t
    | some call ↦ finish call reply (record t { waiting = remove_at i t.waiting })
  ]

  unfoldable pub run : Team → List Event → Team
  run t [] = t
  run t (e ∷ es) = run (step t e) es
