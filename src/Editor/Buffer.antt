-- ===== src/Editor/Buffer.antt =====
-- The states of frontend/components/file-editor.tsx and the file on the server. The text that the editor
-- holds is the one of `content`.
use ventopanel.Base.{
  ℕ, if◌then◌else◌, Bool, true, false, not, ◌&&◌, ◌||◌, Option, none, some, List, [], ◌∷◌, ◌++◌,
  Text, get_elem?, remove_at,
}

-- `pending` holds the texts of the writes that wait for their reply, the oldest first; `disk` is the
-- file on the server.
pub record Editor : Type 0 where
  pub content : Option Text
  pub loading : Bool
  pub saving : Bool
  pub dirty : Bool
  pub is_open : Bool
  pub pending : List Text
  pub disk : Text

-- The editor as it opens a file with this text.
abbrev pub opened : Text → Editor
opened disk = record {
  content = none;
  loading = true;
  saving = false;
  dirty = false;
  is_open = true;
  pending = [];
  disk = disk;
}

-- `editorRef.current?.getValue() ?? content ?? ""`
abbrev pub value_of : Option Text → Text
value_of none = []
value_of (some t) = t

-- The effect that loads the file, after its reply.
unfoldable pub load_done : Bool → Editor → Editor
load_done true e = record e { content = some e.disk; dirty = false; loading = false }
load_done false e = record e { loading = false }

-- `onChange`, which the editor calls after a change of its text.
unfoldable pub change : Text → Editor → Editor
change t e = record e { content = some t; dirty = true }

-- `save` up to its `await`.
unfoldable pub save : Editor → Editor
save e = record e { saving = true; pending = e.pending ++ value_of e.content ∷ [] }

-- The rest of `save`, when the write of this text succeeded or failed.
unfoldable pub save_done : Bool → Text → Editor → Editor
save_done true t e = record e { dirty = false; saving = false; disk = t }
save_done false t e = record e { saving = false }

-- `handleClose`, with the answer to its question.
unfoldable pub handle_close : Bool → Editor → Editor
handle_close confirmed e = if e.dirty && not confirmed then e else record e { is_open = false }

-- What can happen: `pressed_save` is the key binding, which the state of the button does not stop.
pub data Event : Type 0 where
  loaded : Bool → Event
  changed : Text → Event
  clicked_save pressed_save : Event
  replied : ℕ → Bool → Event
  closed : Bool → Event

-- The file is loaded once; the text can be changed when that is over.
unfoldable pub step : Editor → Event → Editor
step e (loaded ok) = if e.loading then load_done ok e else e
step e (changed t) = if e.loading then e else change t e
step e clicked_save = if e.saving || e.loading then e else save e
step e pressed_save = if e.loading then e else save e
step e (replied i ok) = elim (get_elem? e.pending i) [
  | none ↦ e
  | some t ↦ save_done ok t (record e { pending = remove_at i e.pending })
]
step e (closed confirmed) = handle_close confirmed e

unfoldable pub run : Editor → List Event → Editor
run e [] = e
run e (event ∷ events) = run (step e event) events
