-- ===== src/Users/Visitors.antt =====
-- The page of Users/Page.antt for who is no admin.
use ventopanel.Base.{
  ◌≡◌, refl, sym, ◌∙◌, subst, if◌then◌else◌, Bool, true, false, ◌&&◌, Option, none, List, [], ◌∷◌,
  Text, get_elem?,
}
use ventopanel.Api.Session.{TokenPayload}
use ventopanel.Users.Page.{
  Team, Event, toggled_invite, clicked_invite, typed_email, typed_password, chose_role,
  changed_role, clicked_delete, confirmed, cancelled, closed, replied, is_pending, is_admin, step,
  run,
}

module _ {R : Type 0} (parse : Text → Option R) (decode : Text → Option TokenPayload) where
  -- The page of a visitor who is no admin, where no dialog is open and no request waits.
  abbrev pub IsIdle : Team → Type 0
  IsIdle t = (is_admin parse decode t ≡ false) × (t.confirm ≡ none) × (t.waiting ≡ [])

  abbrev IsQuiet : Team → Team → Type 0
  IsQuiet t u = IsIdle u × (u.sent ≡ t.sent)

  no_form : (a b : Bool) → b ≡ false → (a && b) ≡ false
  no_form true b h = h
  no_form false b h = refl

  if-IsQuiet :
      (b : Bool) (t : Team) → IsIdle t → IsQuiet t (if b then t else record t { confirm = none })
  if-IsQuiet true t h = (h, refl)
  if-IsQuiet false t (a, c, w) = ((a, refl, w), refl)

  step-IsIdle : (e : Event) (t : Team) → IsIdle t → IsQuiet t (step parse decode t e)
  unfolding step
  step-IsIdle toggled_invite t h = rw (h.0, step) (h, refl)
  step-IsIdle (typed_email email) t h = rw (no_form t.show_invite _ h.0, step) (h, refl)
  step-IsIdle (typed_password password) t h = rw (no_form t.show_invite _ h.0, step) (h, refl)
  step-IsIdle (chose_role role) t h = rw (no_form t.show_invite _ h.0, step) (h, refl)
  step-IsIdle clicked_invite t h = rw (no_form t.show_invite _ h.0, step) (h, refl)
  step-IsIdle (changed_role id role) t h = rw (h.0, step) (h, refl)
  step-IsIdle (clicked_delete id) t h = rw (h.0, step) (h, refl)
  step-IsIdle confirmed t h = rw (h.1, step) (h, refl)
  step-IsIdle cancelled t h = if-IsQuiet (is_pending 2 t.waiting) t h
  step-IsIdle closed t (a, c, w) = ((a, refl, w), refl)
  step-IsIdle (replied i reply) t h =
      rw (subst (λ calls. get_elem? calls i ≡ none) (sym h.2) refl, step) (h, refl)

  -- For a visitor who is no admin, on a page with no open dialog and no request under way, nothing that is typed or clicked
  -- sends a request.
  pub run-IsIdle : (es : List Event) (t : Team) → IsIdle t → (run parse decode t es).sent ≡ t.sent
  unfolding run
  run-IsIdle [] t h = refl
  run-IsIdle (e ∷ es) t h =
      let (still, same) = step-IsIdle e t h in run-IsIdle es (step parse decode t e) still ∙ same
