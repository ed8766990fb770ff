-- ===== src/Nginx/Editor.antt =====
-- `EditorModal` of frontend/app/(dashboard)/nginx/page.tsx, with what the query library keeps of the file, and
-- the file on the server. The library is not modelled: its fetches are events.
use ventopanel.Base.{
  ℕ, ◌≡◌, refl, Bool, true, false, ◌||◌, if◌then◌else◌, Option, none, some, List, [], ◌∷◌, ◌++◌,
  map, Text, text_eq, get_elem?, remove_at, arith,
}

-- `nginx -t` after a save.
pub record Tested : Type 0 where
  pub test_ok : Bool
  pub test_output : Text

-- A save that waits for its reply; `mine` is false, if the editor was closed since.
pub record Write : Type 0 where
  pub text : Text
  pub mine : Bool

-- `cached` is the content that the query holds, also after the editor was closed; `loading` is its `isLoading`:
-- the first fetch is under way. `disk` is the file on the server.
pub record VhostEditor : Type 0 where
  pub content : Option Text
  pub tested : Option Tested
  pub cached : Option Text
  pub loading : Bool
  pub pending : List Write
  pub disk : Text

abbrev is_none : Option Text → Bool
is_none none = true
is_none (some t) = false

-- The editor as it opens: the effect shows what the query holds already, and the first fetch begins where it
-- holds nothing.
unfoldable pub opened : Option Text → List Write → Text → VhostEditor
opened cached pending disk = record {
  content = cached;
  tested = none;
  cached = cached;
  loading = is_none cached;
  pending = pending;
  disk = disk;
}

abbrev pub is_same : Option Text → Text → Bool
is_same none t = false
is_same (some c) t = text_eq c t

-- A fetch ends. The library keeps its data where the new data is equal to it, and the effect runs where the data is
-- another.
unfoldable pub fetch_done : Option Text → VhostEditor → VhostEditor
fetch_done none e = record e { loading = false }
fetch_done (some t) e =
    if is_same e.cached t
    then record e { loading = false }
    else record e { cached = some t; content = some t; loading = false }

-- `content ?? ""`
abbrev pub content_or_empty : Option Text → Text
content_or_empty none = []
content_or_empty (some t) = t

-- `saveMut.mutate()`
unfoldable pub save : VhostEditor → VhostEditor
save e = record e {
  pending = e.pending ++ record { text = content_or_empty e.content; mine = true } ∷ [];
}

-- `onSuccess` of the save, if the editor that sent it is still there.
abbrev pub show_tested : Bool → Tested → VhostEditor → VhostEditor
show_tested true tested e = record e { tested = some tested }
show_tested false tested e = e

-- A save succeeded, with its test, or failed.
unfoldable pub save_done : Write → Option Tested → VhostEditor → VhostEditor
save_done write none e = e
save_done write (some tested) e = show_tested write.mine tested (record e { disk = write.text })

abbrev pub saving : List Write → Bool
saving [] = false
saving (write ∷ writes) = write.mine || saving writes

abbrev disown : Write → Write
disown write = record write { mine = false }

-- The editor is closed and opened again for the same file, with what the query holds.
unfoldable pub reopen : VhostEditor → VhostEditor
unfolding opened
reopen e = opened e.cached (map disown e.pending) e.disk

pub data Event : Type 0 where
  fetched : Option Text → Event
  changed : Text → Event
  clicked_save : Event
  replied : ℕ → Option Tested → Event
  reopened : Event

unfoldable pub step : VhostEditor → Event → VhostEditor
step e (fetched data_of) = fetch_done data_of e
step e (changed t) = if e.loading then e else record e { content = some t }
step e clicked_save = if saving e.pending || e.loading then e else save e
step e (replied i result) = elim (get_elem? e.pending i) [
  | none ↦ e
  | some write ↦ save_done write result (record e { pending = remove_at i e.pending })
]
step e reopened = reopen e

unfoldable pub run : VhostEditor → List Event → VhostEditor
run e [] = e
run e (event ∷ events) = run (step e event) events

-- If the file cannot be loaded, the editor lets it be saved all the same, and a save that succeeds leaves an empty
-- file on the server.
run-unloaded :
    (disk : Text) (tested : Tested)
    → (run (opened none [] disk) (fetched none ∷ clicked_save ∷ replied 0 (some tested) ∷ [])).disk
      ≡ []
unfolding run step fetch_done save save_done opened
run-unloaded disk tested = refl

-- An editor whose file was loaded, with no save under way.
abbrev pub ready : Text → Text → VhostEditor → VhostEditor
ready old new e = record e { content = some new; cached = some old; loading = false; pending = [] }

abbrev pub save_events : Tested → List Event
save_events tested = clicked_save ∷ replied 0 (some tested) ∷ []

-- A save that succeeds writes what the editor shows, and shows the test. The editor that is opened again before the
-- file was fetched again shows the text from before the save, and a save there writes that back.
run-save_reopened :
    (old new : Text) (first second : Tested) (e : VhostEditor)
    → let saved = run (ready old new e) (save_events first) in
      let again = run saved (reopened ∷ []) in
      (saved.disk ≡ new)
      × (saved.content ≡ some new)
      × (saved.tested ≡ some first)
      × (again.content ≡ some old)
      × ((run again (save_events second)).disk ≡ old)
unfolding run step save save_done reopen
run-save_reopened old new first second e = (refl, refl, refl, refl, refl)

-- If the editor shows text that was typed after a save, and the file is fetched again, what was typed is lost, if
-- the file had another content when it was loaded; otherwise it is kept.
run-save_refetched :
    (old new later : Text) (tested : Tested) (e : VhostEditor)
    → (run
        (ready old new e)
        (clicked_save ∷ replied 0 (some tested) ∷ changed later ∷ fetched (some new) ∷ [])).content
      ≡ (if text_eq old new then some later else some new)
unfolding run step fetch_done save save_done
run-save_refetched old new later tested e = ground arith
