-- ===== src/Files/Targets.antt =====
-- Where the uploads of Files/Uploads.antt go.
use ventopanel.Base.{
  ℕ, ◌≡◌, refl, sym, ap, ap₂, subst, ◌∙◌, inl, inr, if◌then◌else◌, true, false, Bool-cases, Option,
  Option-cases, List, [], ◌∷◌, ◌++◌, map, Text, text, text_eq, text_eq_iff, get_elem?,
}
use ventopanel.Api.Session.{Browser}
use ventopanel.Api.Fetch.{Reply}
use ventopanel.Files.Uploads.{
  Visit, Uploads, opened, render, upload_of, handle_files, Event, opened_folder, changed_server,
  moved, dragged_over, dragged_out, dropped, chose, replied, visit_after, finish, step, run,
}

-- An event that leads to another server leads to another folder.
abbrev pub IsMove : Visit → Visit → Type 0
IsMove v w = text_eq w.path v.path ≡ true → w.server_id ≡ v.server_id

abbrev pub AreMoves : Visit → List Event → Type 0
AreMoves v [] = Unit {0}
AreMoves v (e ∷ es) = IsMove v (visit_after v e) × AreMoves (visit_after v e) es

same_visit : (v w : Visit) → v.path ≡ w.path → v.server_id ≡ w.server_id → v ≡ w
same_visit v w p s = ap₂ at p s
  where
    at : Text → Text → Visit
    at path server_id = record { path = path; server_id = server_id }

-- The handler is up to date with the page.
abbrev IsFresh : Uploads → Type 0
IsFresh u = u.captured ≡ u.shown

render-IsFresh : (v : Visit) (u : Uploads) → IsMove u.shown v → IsFresh u → IsFresh (render v u)
unfolding render
render-IsFresh v u m f = elim (Bool-cases (text_eq v.path u.captured.path)) [
  | inl same ↦
      let again : text_eq v.path u.shown.path ≡ true =
        ap (λ w. text_eq v.path w.path) (sym f) ∙ same in
      rw (same, render)
        (same_visit u.captured v (sym ((text_eq_iff v.path u.captured.path).0 same))
          (ap (λ w. w.server_id) f ∙ sym (m again)))
  | inr other ↦ rw (other, render) refl
]

-- The folder of the handler is the one that is shown.
abbrev IsHere : Uploads → Type 0
IsHere u = u.captured.path ≡ u.shown.path

render-IsHere : (v : Visit) (u : Uploads) → IsHere (render v u)
unfolding render
render-IsHere v u = elim (Bool-cases (text_eq v.path u.captured.path)) [
  | inl same ↦ rw (same, render) (sym ((text_eq_iff v.path u.captured.path).0 same))
  | inr other ↦ rw (other, render) refl
]

-- Neither address changes.
abbrev Stays : Uploads → Uploads → Type 0
Stays u v = (v.shown ≡ u.shown) × (v.captured ≡ u.captured)

handle_files-Stays : (files : List Text) (u : Uploads) → Stays u (handle_files files u)
unfolding handle_files
handle_files-Stays [] u = (refl, refl)
handle_files-Stays (file ∷ files) u = (refl, refl)

IsFresh-of_Stays : (u v : Uploads) → Stays u v → IsFresh u → IsFresh v
IsFresh-of_Stays u v (shown, captured) f = captured ∙ f ∙ sym shown

IsHere-of_Stays : (u v : Uploads) → Stays u v → IsHere u → IsHere v
IsHere-of_Stays u v (shown, captured) h =
    ap (λ w. w.path) captured ∙ h ∙ sym (ap (λ w. w.path) shown)

module _ (error_of : Text → Option Text) where
  replied-Stays :
      (i : ℕ) (reply : Option Reply) (u : Uploads) → Stays u (step error_of u (replied i reply))
  unfolding step finish
  replied-Stays i reply u = elim (Option-cases (get_elem? u.waiting i)) [
    | inl e ↦ rw (e, step) (refl, refl)
    | inr (upload, e) ↦ rw (e, step, finish) (refl, refl)
  ]

  step-shown : (e : Event) (u : Uploads) → (step error_of u e).shown ≡ visit_after u.shown e
  unfolding step render
  step-shown (opened_folder p) u = refl
  step-shown (changed_server sid) u = refl
  step-shown (moved w) u = refl
  step-shown dragged_over u = refl
  step-shown dragged_out u = refl
  step-shown (dropped files) u = (handle_files-Stays files (record u { dragging = false })).0
  step-shown (chose files) u = (handle_files-Stays files u).0
  step-shown (replied i reply) u = (replied-Stays i reply u).0

  step-IsFresh :
      (e : Event) (u : Uploads)
      → IsMove u.shown (visit_after u.shown e)
      → IsFresh u
      → IsFresh (step error_of u e)
  unfolding step
  step-IsFresh (opened_folder p) u m f = render-IsFresh _ u m f
  step-IsFresh (changed_server sid) u m f = render-IsFresh _ u m f
  step-IsFresh (moved w) u m f = render-IsFresh w u m f
  step-IsFresh dragged_over u m f = f
  step-IsFresh dragged_out u m f = f
  step-IsFresh (dropped files) u m f =
      let still : Uploads = record u { dragging = false } in
      IsFresh-of_Stays still (handle_files files still) (handle_files-Stays files still) f
  step-IsFresh (chose files) u m f =
      IsFresh-of_Stays u (handle_files files u) (handle_files-Stays files u) f
  step-IsFresh (replied i reply) u m f =
      IsFresh-of_Stays u (step error_of u (replied i reply)) (replied-Stays i reply u) f

  step-IsHere : (e : Event) (u : Uploads) → IsHere u → IsHere (step error_of u e)
  unfolding step
  step-IsHere (opened_folder p) u h = render-IsHere _ u
  step-IsHere (changed_server sid) u h = render-IsHere _ u
  step-IsHere (moved w) u h = render-IsHere w u
  step-IsHere dragged_over u h = h
  step-IsHere dragged_out u h = h
  step-IsHere (dropped files) u h =
      let still : Uploads = record u { dragging = false } in
      IsHere-of_Stays still (handle_files files still) (handle_files-Stays files still) h
  step-IsHere (chose files) u h =
      IsHere-of_Stays u (handle_files files u) (handle_files-Stays files u) h
  step-IsHere (replied i reply) u h =
      IsHere-of_Stays u (step error_of u (replied i reply)) (replied-Stays i reply u) h

  run-IsFresh :
      (es : List Event) (u : Uploads)
      → AreMoves u.shown es
      → IsFresh u
      → IsFresh (run error_of u es)
  unfolding run
  run-IsFresh [] u m f = f
  run-IsFresh (e ∷ es) u (m, ms) f =
      run-IsFresh es (step error_of u e) (subst (λ v. AreMoves v es) (sym (step-shown e u)) ms)
        (step-IsFresh e u m f)

  run-IsHere : (es : List Event) (u : Uploads) → IsHere u → IsHere (run error_of u es)
  unfolding run
  run-IsHere [] u h = h
  run-IsHere (e ∷ es) u h = run-IsHere es (step error_of u e) (step-IsHere e u h)

  -- Files that are dropped go to the folder that is shown then, whatever happened before.
  run-dropped_here :
      (es : List Event) (v : Visit) (b : Browser) (file : Text) (files : List Text)
      → let u = run error_of (opened v b) es in
        (w : Visit) × ((step error_of u (dropped (file ∷ files))).sent
          ≡ u.sent ++ upload_of w (file ∷ files) ∷ [])
        × (w.path ≡ u.shown.path)
  unfolding opened step handle_files
  run-dropped_here es v b file files = (_, refl, run-IsHere es (opened v b) refl)

  -- If each change of the server, by the list or the history, was one of the folder too, files that are dropped go to
  -- the folder and the server that are shown then.
  pub run-dropped :
      (es : List Event) (v : Visit) (b : Browser) (file : Text) (files : List Text)
      → AreMoves v es
      → let u = run error_of (opened v b) es in
        (step error_of u (dropped (file ∷ files))).sent
        ≡ u.sent ++ upload_of u.shown (file ∷ files) ∷ []
  unfolding opened step handle_files
  run-dropped es v b file files m =
      let u : Uploads = run error_of (opened v b) es in
      ap (λ w. u.sent ++ upload_of w (file ∷ files) ∷ []) (run-IsFresh es (opened v b) m refl)

  changed_server-captured :
      (sid : Text) (u : Uploads)
      → u.captured.path ≡ text "/"
      → (step error_of u (changed_server sid)).captured ≡ u.captured
  unfolding step render
  changed_server-captured sid u h =
      ap (λ b. if b then u.captured else visit_after u.shown (changed_server sid))
        ((text_eq_iff (text "/") u.captured.path).1 (sym h))

  changed_server-sent :
      (sid : Text) (u : Uploads) → (step error_of u (changed_server sid)).sent ≡ u.sent
  unfolding step render
  changed_server-sent sid u = refl

  run-changed_server :
      (sids : List Text) (u : Uploads)
      → u.captured.path ≡ text "/"
      → ((run error_of u (map changed_server sids)).captured ≡ u.captured)
        × ((run error_of u (map changed_server sids)).sent ≡ u.sent)
  unfolding run
  run-changed_server [] u h = (refl, refl)
  run-changed_server (sid ∷ sids) u h =
      let same = changed_server-captured sid u h in
      let next : Uploads = step error_of u (changed_server sid) in
      let (captured, sent) = run-changed_server sids next (ap (λ w. w.path) same ∙ h) in
      (captured ∙ same, sent ∙ changed_server-sent sid u)

  -- In the root folder, whatever servers are chosen one after another, files that are dropped are sent to the server
  -- that was shown first.
  pub run-dropped_left :
      (sids : List Text) (v : Visit) (b : Browser) (file : Text) (files : List Text)
      → v.path ≡ text "/"
      → (step error_of
          (run error_of (opened v b) (map changed_server sids))
          (dropped (file ∷ files))).sent
        ≡ upload_of v (file ∷ files) ∷ []
  unfolding opened step handle_files
  run-dropped_left sids v b file files h =
      let (captured, sent) = run-changed_server sids (opened v b) h in
      ap₂ (λ uploads w. uploads ++ upload_of w (file ∷ files) ∷ []) sent captured
