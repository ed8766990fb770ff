-- ===== src/Files/Uploads.antt =====
-- The uploads of frontend/app/(dashboard)/files/page.tsx, to the folder and the server that its memoised handler holds.
mod Tests
use ventopanel.Base.{
  ℕ, ◌≡◌, refl, sym, ap, ap₂, ◌∙◌, inl, inr, if◌then◌else◌, Bool, true, false, Bool-cases, Option,
  none, some, Option-cases, List, [], ◌∷◌, ◌++◌, Text, text, text_eq, text_eq_iff, truthy,
  get_elem?, remove_at, arith,
}
use ventopanel.Api.Session.{Browser}
use ventopanel.Api.Fetch.{Reply, Server}
use ventopanel.Api.Raw.{fm_upload}

-- The address of the page: `currentPath` and `serverId`.
pub record Visit : Type 0 where
  pub path : Text
  pub server_id : Text

-- An upload, with the arguments of `fmUpload`.
pub record Upload : Type 0 where
  pub dir : Text
  pub files : List Text
  pub server_id : Option Text

-- `shown` is the address of the last render, and `captured` that of the render whose `handleFiles` React keeps.
-- `waiting` has the uploads that wait for their replies, the oldest first, and `sent` all that were sent.
pub record Uploads : Type 0 where
  pub shown : Visit
  pub captured : Visit
  pub uploading : Bool
  pub dragging : Bool
  pub waiting : List Upload
  pub sent : List Upload
  pub browser : Browser

unfoldable pub opened : Visit → Browser → Uploads
opened v b = record {
  shown = v;
  captured = v;
  uploading = false;
  dragging = false;
  waiting = [];
  sent = [];
  browser = b;
}

-- The page renders at an address: `useCallback` makes `handleFiles` anew where `currentPath` is another.
unfoldable pub render : Visit → Uploads → Uploads
render v u = record u {
  shown = v;
  captured = if text_eq v.path u.captured.path then u.captured else v;
}

-- `serverId || undefined`
abbrev pub sid_of : Text → Option Text
sid_of server_id = if truthy server_id then some server_id else none

-- The upload that `handleFiles` sends.
abbrev pub upload_of : Visit → List Text → Upload
upload_of v files = record { dir = v.path; files = files; server_id = sid_of v.server_id }

abbrev pub send : Upload → Uploads → Uploads
send upload u = record u {
  uploading = true;
  waiting = u.waiting ++ upload ∷ [];
  sent = u.sent ++ upload ∷ [];
}

-- `handleFiles` up to its request.
unfoldable pub handle_files : List Text → Uploads → Uploads
handle_files [] u = u
handle_files (file ∷ files) u = send (upload_of u.captured (file ∷ files)) u

-- `moved` is a step back or forward in the history of the browser.
pub data Event : Type 0 where
  opened_folder changed_server : Text → Event
  moved : Visit → Event
  dragged_over dragged_out : Event
  dropped chose : List Text → Event
  replied : ℕ → Option Reply → Event

-- The address that the page has after an event: `navigate`, `handleServerChange`, or the history.
abbrev pub visit_after : Visit → Event → Visit
visit_after v (opened_folder p) = record { path = p; server_id = v.server_id }
visit_after v (changed_server sid) = record {
  path = text "/";
  server_id = if text_eq sid (text "__local__") then [] else sid;
}
visit_after v (moved w) = w
visit_after v _ = v

-- `error_of` reads the message of a reply that is not ok.
module _ (error_of : Text → Option Text) where
  unfoldable pub finish : Upload → Option Reply → Uploads → Uploads
  finish upload reply u = record u {
    browser =
        (fm_upload error_of (λ request. reply) upload.dir upload.files upload.server_id
          u.browser).1;
    uploading = false;
  }

  unfoldable pub step : Uploads → Event → Uploads
  step u (opened_folder p) = render (visit_after u.shown (opened_folder p)) u
  step u (changed_server sid) = render (visit_after u.shown (changed_server sid)) u
  step u (moved w) = render w u
  step u dragged_over = record u { dragging = true }
  step u dragged_out = record u { dragging = false }
  step u (dropped files) = handle_files files (record u { dragging = false })
  step u (chose files) = handle_files files u
  step u (replied i reply) = elim (get_elem? u.waiting i) [
    | none ↦ u
    | some upload ↦ finish upload reply (record u { waiting = remove_at i u.waiting })
  ]

  unfoldable pub run : Uploads → List Event → Uploads
  run u [] = u
  run u (e ∷ es) = run (step u e) es
