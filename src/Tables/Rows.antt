-- ===== src/Tables/Rows.antt =====
-- The buttons and dialogs of the rows in frontend/components/servers-table.tsx and frontend/components/sites-table.tsx,
-- which differ in their calls alone. Tables/Kinds.antt has those of the two tables.
mod Tests
use ventopanel.Base.{
  ℕ, zero, suc, ◌≡◌, if◌then◌else◌, Bool, true, false, not, ◌&&◌, Option, none, some, List, [], ◌∷◌,
  ◌++◌, Text, get_elem?, remove_at, pending, is_of,
}
use ventopanel.Api.Session.{Browser, TokenPayload}
use ventopanel.Api.Fetch.{Reply}
use ventopanel.Access.{use_auth}

-- What a table needs: the payload that a token has, the mutation of each action, and what the reply to an action and to
-- a deletion leaves of the browser.
pub record Rows (A : Type 0) : Type 0 where
  pub decode : Text → Option TokenPayload
  pub number : A → ℕ
  pub act : A → Text → Option Reply → Browser → Browser
  pub remove : Text → Option Reply → Browser → Browser

pub data RowCall (A : Type 0) : Type 0 where
  action : A → Text → RowCall A
  removal : Text → RowCall A

-- `editTarget`, `editOpen` and `deleteTarget`, the requests that wait, the oldest first, and all that were sent.
-- `mounted` is the browser when the table was mounted, of which `useAuth` keeps the role.
pub record Table (A : Type 0) : Type 0 where
  pub edit_target : Option Text
  pub edit_open : Bool
  pub delete_target : Option Text
  pub waiting : List (RowCall A)
  pub sent : List (RowCall A)
  pub browser : Browser
  pub mounted : Browser

-- `closed` is the Escape key or a click beside the dialog of the deletion.
pub data Event (A : Type 0) : Type 0 where
  clicked : A → Text → Event A
  clicked_edit clicked_delete : Text → Event A
  edit_changed : Bool → Event A
  confirmed cancelled closed : Event A
  replied : ℕ → Option Reply → Event A

module _ {A : Type 0} (rows : Rows A) where
  open rows use {decode, number, act, remove}

  abbrev pub kind_of : RowCall A → ℕ
  kind_of (action a id) = suc (number a)
  kind_of (removal id) = zero

  -- `isPending` of the mutation.
  abbrev pub is_pending : ℕ → Table A → Bool
  is_pending k t = pending (is_of kind_of k) t.waiting

  abbrev pub send : RowCall A → Table A → Table A
  send call t = record t { waiting = t.waiting ++ call ∷ []; sent = t.sent ++ call ∷ [] }

  -- `handleConnect`, `handleProvision` or `handleDeploy`.
  abbrev pub handle_action : A → Text → Table A → Table A
  handle_action a id t =
      if (use_auth decode t.mounted).can_write && not (is_pending (suc (number a)) t)
      then send (action a id) t
      else t

  -- `handleDelete` up to its request.
  unfoldable pub handle_delete : Table A → Table A
  handle_delete t = elim t.delete_target [ none ↦ t | some id ↦ send (removal id) t ]

  -- `onOpenChange` of the form.
  abbrev pub on_open_change : Bool → Table A → Table A
  on_open_change true t = record t { edit_open = true }
  on_open_change false t = record t { edit_open = false; edit_target = none }

  unfoldable pub finish : RowCall A → Option Reply → Table A → Table A
  finish (action a id) reply t = record t { browser = act a id reply t.browser }
  finish (removal id) reply t = record t {
    browser = remove id reply t.browser;
    delete_target = none;
  }

  unfoldable pub step : Table A → Event A → Table A
  step t (clicked a id) = handle_action a id t
  step t (clicked_edit id) =
      if (use_auth decode t.mounted).can_write
      then record t { edit_target = some id; edit_open = true }
      else t
  step t (clicked_delete id) =
      if (use_auth decode t.mounted).is_admin then record t { delete_target = some id } else t
  step t (edit_changed v) = on_open_change v t
  step t confirmed = if is_pending zero t then t else handle_delete t
  step t cancelled = if is_pending zero t then t else record t { delete_target = none }
  step t closed = record t { delete_target = none }
  step t (replied i reply) = elim (get_elem? t.waiting i) [
    | none ↦ t
    | some call ↦ finish call reply (record t { waiting = remove_at i t.waiting })
  ]

  unfoldable pub run : Table A → List (Event A) → Table A
  run t [] = t
  run t (e ∷ es) = run (step t e) es
