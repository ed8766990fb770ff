-- ===== src/Editor/Saving.antt =====
-- The text of Editor/Buffer.antt against the file on the server.
use ventopanel.Base.{
  ℕ, ◌≡◌, refl, ap, sym, ◌∙◌, ◌⊎◌, inl, inr, Option-cases, if◌then◌else◌, not, ◌&&◌, ◌||◌, Bool,
  true, false, Option, none, some, List, [], ◌∷◌, Text, All, All-append, get_elem?, arith, subst,
  remove_at, All-get_elem?,
}
use ventopanel.Editor.Buffer.{
  Editor, value_of, load_done, change, save, save_done, handle_close, Event, loaded, changed,
  clicked_save, pressed_save, replied, closed, step, run,
}

-- No text is changed while a write waits for its reply.
abbrev pub IsCalm : Editor → List Event → Type 0
IsCalm e [] = Unit
IsCalm e (changed t ∷ events) = (e.pending ≡ []) × IsCalm (step e (changed t)) events
IsCalm e (loaded ok ∷ events) = IsCalm (step e (loaded ok)) events
IsCalm e (clicked_save ∷ events) = IsCalm (step e clicked_save) events
IsCalm e (pressed_save ∷ events) = IsCalm (step e pressed_save) events
IsCalm e (replied i ok ∷ events) = IsCalm (step e (replied i ok)) events
IsCalm e (closed confirmed ∷ events) = IsCalm (step e (closed confirmed)) events

-- A text that does not count as changed is the one of the file, and what is being written is the text.
abbrev pub InSync : Editor → Type 0
InSync e =
    (e.dirty ≡ false → (e.content ≡ none) ⊎ (e.content ≡ some e.disk))
    × All (λ t. t ≡ value_of e.content) e.pending
    × (e.loading ≡ true → e.pending ≡ [])

value_of-cases : (o : Option Text) (t : Text) → t ≡ value_of o → (o ≡ none) ⊎ (o ≡ some t)
value_of-cases none t h = inl refl
value_of-cases (some c) t h = inr (ap some (sym h))

remove_at-nil : (i : ℕ) → remove_at {A = Text} i [] ≡ []
remove_at-nil i = refl

save_done-InSync :
    (ok : Bool) (t : Text) (e : Editor)
    → InSync e
    → t ≡ value_of e.content
    → InSync (save_done ok t e)
unfolding save_done
save_done-InSync true t e (h, k, n) v = ((λ d. value_of-cases e.content t v), k, n)
save_done-InSync false t e h v = h

replied-InSync : (i : ℕ) (ok : Bool) (e : Editor) → InSync e → InSync (step e (replied i ok))
unfolding step
replied-InSync i ok e (h, k, n) = elim (Option-cases (get_elem? e.pending i)) [
  | inl missing ↦ rw (missing, step) (h, k, n)
  | inr (t, found) ↦
      let (same, rest) = All-get_elem? (λ u. u ≡ value_of e.content) e.pending i t k found in
      rw (found, step)
        (save_done-InSync ok t (record e { pending = remove_at i e.pending })
          (h, rest, λ l. ap (remove_at i) (n l) ∙ remove_at-nil i) same)
]

save-InSync : (e : Editor) → e.loading ≡ false → InSync e → InSync (save e)
unfolding save
save-InSync e l (h, k, n) = (
  h,
  All-append (λ t. t ≡ value_of e.content) e.pending (value_of e.content ∷ []) k (refl, tt),
  (λ o. cc),
)

load_done-InSync : (ok : Bool) (e : Editor) → e.loading ≡ true → InSync e → InSync (load_done ok e)
unfolding load_done
load_done-InSync true e l (h, k, n) =
    ((λ d. inr refl), subst (All (λ t. t ≡ e.disk)) (sym (n l)) tt, (λ o. n l))
load_done-InSync false e l (h, k, n) = (h, k, (λ o. n l))

change-InSync : (t : Text) (e : Editor) → e.pending ≡ [] → InSync (change t e)
unfolding change
change-InSync t e p = ((λ d. cc), subst (All (λ u. u ≡ t)) (sym p) tt, (λ l. p))

if-InSync :
    (b : Bool) (e f : Editor)
    → (b ≡ true → InSync e)
    → (b ≡ false → InSync f)
    → InSync (if b then e else f)
if-InSync true e f h k = h refl
if-InSync false e f h k = k refl

not_loading : (e : Editor) → (e.saving || e.loading) ≡ false → e.loading ≡ false
not_loading e h = ground arith

step-InSync :
    (event : Event) (e : Editor) → IsCalm e (event ∷ []) → InSync e → InSync (step e event)
unfolding step handle_close
step-InSync (loaded ok) e c h =
    if-InSync e.loading (load_done ok e) e (λ l. load_done-InSync ok e l h) (λ l. h)
step-InSync (changed t) e c h =
    if-InSync e.loading e (change t e) (λ l. h) (λ l. change-InSync t e c.0)
step-InSync clicked_save e c h =
    if-InSync (e.saving || e.loading) e (save e) (λ l. h) (λ l. save-InSync e (not_loading e l) h)
step-InSync pressed_save e c h = if-InSync e.loading e (save e) (λ l. h) (λ l. save-InSync e l h)
step-InSync (replied i ok) e c h = replied-InSync i ok e h
step-InSync (closed confirmed) e c h =
    if-InSync (e.dirty && not confirmed) e (record e { is_open = false }) (λ l. h) (λ l. h)

IsCalm-head :
    (event : Event) (events : List Event) (e : Editor)
    → IsCalm e (event ∷ events)
    → IsCalm e (event ∷ []) × IsCalm (step e event) events
IsCalm-head (loaded ok) events e c = (tt, c)
IsCalm-head (changed t) events e c = ((c.0, tt), c.1)
IsCalm-head clicked_save events e c = (tt, c)
IsCalm-head pressed_save events e c = (tt, c)
IsCalm-head (replied i ok) events e c = (tt, c)
IsCalm-head (closed confirmed) events e c = (tt, c)

-- If no text is changed while a write waits for its reply, an editor that shows no unsaved changes shows
-- the file of the server, or has not loaded it; whichever loads and writes fail.
pub run-InSync :
    (events : List Event) (e : Editor) → IsCalm e events → InSync e → InSync (run e events)
unfolding run
run-InSync [] e c h = h
run-InSync (event ∷ events) e c h =
    let (now, later) = IsCalm-head event events e c in
    run-InSync events (step e event) later (step-InSync event e now h)

-- An editor that has loaded its file, with no write under way.
abbrev pub ready : Editor → Editor
ready e = record e { loading = false; pending = [] }

-- A text changed while a write waits for its reply counts as saved when that comes, though the server
-- has the text from before, and the editor then closes without asking.
save_done-change :
    (e : Editor) (t : Text)
    → let edited = run (ready e) (pressed_save ∷ changed t ∷ replied 0 true ∷ []) in
      (edited.content ≡ some t)
      × (edited.disk ≡ value_of e.content)
      × (edited.dirty ≡ false)
      × ((handle_close false edited).is_open ≡ false)
unfolding run step save change save_done handle_close
save_done-change e t = (refl, refl, refl, refl)
