-- ===== src/Servers/Bars.antt =====
-- What the page of Servers.antt shows of a use, and what waits.
use ventopanel.Base.{
  ℕ, ◌≤◌, ◌≡◌, refl, inl, inr, ◌&&◌, not, if◌then◌else◌, Bool, true, false, Option, Option-cases,
  List, [], ◌∷◌, ◌++◌, Text, get_elem?, pending, is_of, OneOfEach, OneOfEach-append,
  OneOfEach-remove_at, arith,
}
use ventopanel.Api.Session.{TokenPayload}
use ventopanel.Api.Fetch.{Reply}
use ventopanel.Access.{use_auth}
use ventopanel.Servers.{
  stat_pct, ServerCall, connect, provision, kind_of, ServerPage, Event, clicked, replied, finish,
  step, run,
}

stat_pct-le : (used total : ℕ) → stat_pct used total ≤ 100
unfolding stat_pct
stat_pct-le used total = ground arith

second : (a b : Bool) → (a && not b) ≡ true → b ≡ false
second true false h = refl
second true true h = cc
second false b h = cc

module _ {R : Type 0} (parse : Text → Option R) (decode : Text → Option TokenPayload)
    (id : Text) where
  finish-waiting :
      (call : ServerCall) (reply : Option Reply) (s : ServerPage)
      → (finish parse decode id call reply s).waiting ≡ s.waiting
  unfolding finish
  finish-waiting connect reply s = refl
  finish-waiting provision reply s = refl

  click-OneOfEach :
      (b : Bool) (call : ServerCall) (s : ServerPage)
      → (b ≡ true → pending (is_of kind_of (kind_of call)) s.waiting ≡ false)
      → OneOfEach kind_of s.waiting
      → OneOfEach kind_of (if b then record s { waiting = s.waiting ++ call ∷ [] } else s).waiting
  click-OneOfEach true call s f h = OneOfEach-append kind_of s.waiting call (f refl) h
  click-OneOfEach false call s f h = h

  step-OneOfEach :
      (e : Event) (s : ServerPage)
      → OneOfEach kind_of s.waiting
      → OneOfEach kind_of (step parse decode id s e).waiting
  unfolding step
  step-OneOfEach (clicked call) s h =
      let may : Bool = (use_auth decode s.mounted).can_write in
      let busy : Bool = pending (is_of kind_of (kind_of call)) s.waiting in
      click-OneOfEach (may && not busy) call s (second may busy) h
  step-OneOfEach (replied i reply) s h = elim (Option-cases (get_elem? s.waiting i)) [
    | inl e ↦ rw (e, step) h
    | inr (call, e) ↦ rw (e, step, finish-waiting) (OneOfEach-remove_at kind_of s.waiting i h)
  ]

  -- Whatever is clicked and replied, at most one request to connect and one to provision wait.
  run-OneOfEach :
      (es : List Event) (s : ServerPage)
      → OneOfEach kind_of s.waiting
      → OneOfEach kind_of (run parse decode id s es).waiting
  unfolding run
  run-OneOfEach [] s h = h
  run-OneOfEach (e ∷ es) s h = run-OneOfEach es (step parse decode id s e) (step-OneOfEach e s h)
