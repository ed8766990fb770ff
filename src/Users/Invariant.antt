-- ===== src/Users/Invariant.antt =====
-- What the page of Users/Page.antt sends, and what waits.
use ventopanel.Base.{
  ◌≡◌, refl, inl, inr, if◌then◌else◌, Bool, true, false, not, ◌&&◌, Option, none, some,
  Option-cases, List, [], ◌∷◌, Text, truthy, get_elem?, remove_at, OneOfEach, OneOfEach-append,
  OneOfEach-remove_at, All, All-append,
}
use ventopanel.Api.Session.{TokenPayload}
use ventopanel.Api.Fetch.{Reply, Outcome, ok, threw}
use ventopanel.Users.Page.{
  TeamCall, invite, change_role, delete, Team, kind_of, is_pending, send, send_invite, invite_done,
  Event, toggled_invite, clicked_invite, typed_email, typed_password, chose_role, changed_role,
  clicked_delete, confirmed, cancelled, closed, replied, is_admin, finish, step, run,
}

-- An invitation has an email address and a password.
abbrev pub IsComplete : TeamCall → Type 0
IsComplete (invite email password role) = (truthy email ≡ true) × (truthy password ≡ true)
IsComplete _ = Unit {0}

abbrev pub IsOrderly : Team → Type 0
IsOrderly t = All IsComplete t.sent × OneOfEach kind_of t.waiting

send-IsOrderly :
    (call : TeamCall) (t : Team)
    → IsComplete call
    → is_pending (kind_of call) t.waiting ≡ false
    → IsOrderly t
    → IsOrderly (send call t)
send-IsOrderly call t c f (a, o) = (
  All-append IsComplete t.sent (call ∷ []) a (c, tt),
  OneOfEach-append kind_of t.waiting call f o,
)

if-IsOrderly :
    (b : Bool) (s t : Team)
    → (b ≡ true → IsOrderly s)
    → (b ≡ false → IsOrderly t)
    → IsOrderly (if b then s else t)
if-IsOrderly true s t h k = h refl
if-IsOrderly false s t h k = k refl

invite_done-IsOrderly :
    {A : Type 0} (o : Outcome A) (t : Team) → IsOrderly t → IsOrderly (invite_done o t)
invite_done-IsOrderly (ok invited) t h = h
invite_done-IsOrderly (threw e) t h = h

parts : (a b c : Bool) → (a && b && not c) ≡ true → (a ≡ true) × (b ≡ true) × (c ≡ false)
parts true true false h = (refl, refl, refl)
parts true true true h = cc
parts true false c h = cc
parts false b c h = cc

second : (a b : Bool) → (a && not b) ≡ true → b ≡ false
second true false h = refl
second true true h = cc
second false b h = cc

send_invite-IsOrderly : (t : Team) → IsOrderly t → IsOrderly (send_invite t)
send_invite-IsOrderly t h =
    if-IsOrderly (truthy t.email && truthy t.password && not (is_pending 0 t.waiting))
      (send (invite t.email t.password t.role) t) t
      (λ c.
        let (email, password, idle) =
          parts (truthy t.email) (truthy t.password) (is_pending 0 t.waiting) c in
        send-IsOrderly (invite t.email t.password t.role) t (email, password) idle h)
      (λ c. h)

module _ {R : Type 0} (parse : Text → Option R) (decode : Text → Option TokenPayload) where
  finish-IsOrderly :
      (call : TeamCall) (reply : Option Reply) (t : Team)
      → IsOrderly t
      → IsOrderly (finish parse decode call reply t)
  unfolding finish
  finish-IsOrderly (invite email password role) reply t h = invite_done-IsOrderly _ _ h
  finish-IsOrderly (change_role id role) reply t h = h
  finish-IsOrderly (delete id) reply t h = h

  step-IsOrderly : (e : Event) (t : Team) → IsOrderly t → IsOrderly (step parse decode t e)
  unfolding step
  step-IsOrderly toggled_invite t h =
      if-IsOrderly (is_admin parse decode t) (record t { show_invite = not t.show_invite }) t
        (λ b. h) (λ b. h)
  step-IsOrderly (typed_email email) t h =
      if-IsOrderly (t.show_invite && is_admin parse decode t) (record t { email = email }) t
        (λ b. h) (λ b. h)
  step-IsOrderly (typed_password password) t h =
      if-IsOrderly (t.show_invite && is_admin parse decode t) (record t { password = password }) t
        (λ b. h) (λ b. h)
  step-IsOrderly (chose_role role) t h =
      if-IsOrderly (t.show_invite && is_admin parse decode t) (record t { role = role }) t (λ b. h)
        (λ b. h)
  step-IsOrderly clicked_invite t h =
      if-IsOrderly (t.show_invite && is_admin parse decode t) (send_invite t) t
        (λ b. send_invite-IsOrderly t h) (λ b. h)
  step-IsOrderly (changed_role id role) t h =
      if-IsOrderly (is_admin parse decode t && not (is_pending 1 t.waiting))
        (send (change_role id role) t) t
        (λ b.
          send-IsOrderly (change_role id role) t tt
            (second (is_admin parse decode t) (is_pending 1 t.waiting) b) h)
        (λ b. h)
  step-IsOrderly (clicked_delete id) t h =
      if-IsOrderly (is_admin parse decode t) (record t { confirm = some id }) t (λ b. h) (λ b. h)
  step-IsOrderly confirmed t h = elim (Option-cases t.confirm) [
    | inl e ↦ rw (e, step) h
    | inr (id, e) ↦
        rw (e, step)
          (if-IsOrderly (is_pending 2 t.waiting) t (send (delete id) t) (λ b. h)
            (λ b. send-IsOrderly (delete id) t tt b h))
  ]
  step-IsOrderly cancelled t h =
      if-IsOrderly (is_pending 2 t.waiting) t (record t { confirm = none }) (λ b. h) (λ b. h)
  step-IsOrderly closed t h = h
  step-IsOrderly (replied i reply) t h = elim (Option-cases (get_elem? t.waiting i)) [
    | inl e ↦ rw (e, step) h
    | inr (call, e) ↦
        rw (e, step)
          (finish-IsOrderly call reply (record t { waiting = remove_at i t.waiting })
            (h.0, OneOfEach-remove_at kind_of t.waiting i h.1))
  ]

  -- Whatever is typed, clicked and replied, each invitation that is sent has an email address and a password, and at
  -- most one invitation, one change of a role and one deletion wait for their replies.
  pub run-IsOrderly : (es : List Event) (t : Team) → IsOrderly t → IsOrderly (run parse decode t es)
  unfolding run
  run-IsOrderly [] t h = h
  run-IsOrderly (e ∷ es) t h = run-IsOrderly es (step parse decode t e) (step-IsOrderly e t h)
