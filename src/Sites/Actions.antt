-- ===== src/Sites/Actions.antt =====
-- The buttons at the head of frontend/app/(dashboard)/sites/[id]/page.tsx: `handleDeploy` and `handleDelete`, with the
-- dialog that asks before a deletion.
mod Tests
use ventopanel.Base.{
  ℕ, if◌then◌else◌, Bool, true, false, not, ◌&&◌, Option, none, some, List, [], ◌∷◌, ◌++◌, Text,
  text, get_elem?, remove_at, pending, is_of, OneOfEach,
}
use ventopanel.Api.Session.{Browser, TokenPayload}
use ventopanel.Api.Fetch.{Reply, Outcome, ok, threw, perform}
use ventopanel.Api.Fetch.Performed.{replying}
use ventopanel.Api.Calls.Sites.{deploy_site, delete_site}
use ventopanel.Access.{use_auth}

pub data SiteAction : Type 0 where
  deploy delete : SiteAction

abbrev pub kind_of : SiteAction → ℕ
kind_of deploy = 0
kind_of delete = 1

-- `mounted` is the browser when the page was mounted, of which `useAuth` keeps the role.
pub record Head : Type 0 where
  pub delete_open : Bool
  pub waiting : List SiteAction
  pub browser : Browser
  pub mounted : Browser

abbrev pub send : SiteAction → Head → Head
send call h = record h { waiting = h.waiting ++ call ∷ [] }

-- The rest of `handleDelete`.
abbrev pub delete_done : {A : Type 0} → Outcome A → Head → Head
delete_done (ok deleted) h = record h { browser = record h.browser { location = text "/sites" } }
delete_done (threw e) h = record h { delete_open = false }

-- `closed` is the Escape key or a click beside the dialog.
pub data Event : Type 0 where
  clicked_deploy clicked_delete confirmed cancelled closed : Event
  replied : ℕ → Option Reply → Event

-- `parse` reads a reply that is not used, and `decode` the payload of a token.
module _ {R : Type 0} (parse : Text → Option R) (decode : Text → Option TokenPayload)
    (id : Text) where
  unfoldable pub finish : SiteAction → Option Reply → Head → Head
  finish deploy reply h = record h {
    browser = (perform parse (replying reply) (deploy_site id) h.browser).1;
  }
  finish delete reply h =
      let (outcome, browser) = perform parse (replying reply) (delete_site id) h.browser in
      delete_done outcome (record h { browser = browser })

  unfoldable pub step : Head → Event → Head
  step h clicked_deploy =
      if (use_auth decode h.mounted).can_write && not (pending (is_of kind_of 0) h.waiting)
      then send deploy h
      else h
  step h clicked_delete =
      if (use_auth decode h.mounted).is_admin then record h { delete_open = true } else h
  step h confirmed =
      if h.delete_open && not (pending (is_of kind_of 1) h.waiting) then send delete h else h
  step h cancelled =
      if pending (is_of kind_of 1) h.waiting then h else record h { delete_open = false }
  step h closed = record h { delete_open = false }
  step h (replied i reply) = elim (get_elem? h.waiting i) [
    | none ↦ h
    | some call ↦ finish call reply (record h { waiting = remove_at i h.waiting })
  ]

  unfoldable pub run : Head → List Event → Head
  run h [] = h
  run h (e ∷ es) = run (step h e) es
