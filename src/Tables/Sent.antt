-- ===== src/Tables/Sent.antt =====
-- What the tables of Tables/Rows.antt send, and what waits.
use ventopanel.Base.{
  zero, ◌≡◌, refl, subst, inl, inr, if◌then◌else◌, Bool, true, false, not, ◌&&◌, Option, none, some,
  Option-cases, List, [], ◌∷◌, Text, get_elem?, remove_at, OneOfEach, OneOfEach-append,
  OneOfEach-remove_at, All, All-append,
}
use ventopanel.Api.Fetch.{Reply}
use ventopanel.Tables.Rows.{
  Rows, RowCall, action, removal, Table, Event, clicked, clicked_edit, clicked_delete, edit_changed,
  confirmed, cancelled, closed, replied, kind_of, is_pending, send, handle_delete, finish, step,
  run,
}

pub if_elim :
    {B : Type 0} (P : B → Type 0) (b : Bool) (s t : B)
    → (b ≡ true → P s)
    → (b ≡ false → P t)
    → P (if b then s else t)
if_elim P true s t h k = h refl
if_elim P false s t h k = k refl

second : (a b : Bool) → (a && not b) ≡ true → b ≡ false
second true false h = refl
second true true h = cc
second false b h = cc

abbrev InTarget : (Text → Type 0) → Option Text → Type 0
InTarget P none = Unit {0}
InTarget P (some id) = P id

module _ {A : Type 0} (P : Text → Type 0) where
  -- What is removed has the property.
  abbrev pub Removes : RowCall A → Type 0
  Removes (action a id) = Unit {0}
  Removes (removal id) = P id

  -- A row whose button to delete is clicked has the property.
  abbrev pub Chooses : Event A → Type 0
  Chooses (clicked_delete id) = P id
  Chooses _ = Unit {0}

module _ {A : Type 0} (rows : Rows A) (P : Text → Type 0) where
  -- The row of the dialog and those of the deletions that were sent have the property, and one request of each kind
  -- waits at most.
  pub record IsChosen (t : Table A) : Type 0 where
    pub target : InTarget P t.delete_target
    pub sent : All (Removes P) t.sent
    pub waiting : OneOfEach (kind_of rows) t.waiting

  send-IsChosen :
      (call : RowCall A) (t : Table A)
      → Removes P call
      → is_pending rows (kind_of rows call) t ≡ false
      → IsChosen t
      → IsChosen (send rows call t)
  send-IsChosen call t c free h = record {
    target = h.target;
    sent = All-append (Removes P) t.sent (call ∷ []) h.sent (c, tt);
    waiting = OneOfEach-append (kind_of rows) t.waiting call free h.waiting;
  }

  -- The same, with another target.
  retarget :
      (t : Table A) (target : Option Text)
      → InTarget P target
      → IsChosen t
      → IsChosen (record t { delete_target = target })
  retarget t target p h = record { target = p; sent = h.sent; waiting = h.waiting }

  handle_delete-IsChosen :
      (t : Table A) → is_pending rows zero t ≡ false → IsChosen t → IsChosen (handle_delete rows t)
  unfolding handle_delete
  handle_delete-IsChosen t free h = elim (Option-cases t.delete_target) [
    | inl e ↦ rw (e, handle_delete) h
    | inr (id, e) ↦
        rw (e, handle_delete) (send-IsChosen (removal id) t (subst (InTarget P) e h.target) free h)
  ]

  finish-IsChosen :
      (call : RowCall A) (reply : Option Reply) (t : Table A)
      → IsChosen t
      → IsChosen (finish rows call reply t)
  unfolding finish
  finish-IsChosen (action a id) reply t h = record {
    target = h.target;
    sent = h.sent;
    waiting = h.waiting;
  }
  finish-IsChosen (removal id) reply t h = record {
    target = tt;
    sent = h.sent;
    waiting = h.waiting;
  }

  step-IsChosen : (t : Table A) (e : Event A) → Chooses P e → IsChosen t → IsChosen (step rows t e)
  unfolding step
  step-IsChosen t (clicked a id) c h =
      if_elim IsChosen _ (send rows (action a id) t) t
        (λ b. send-IsChosen (action a id) t tt (second _ _ b) h) (λ b. h)
  step-IsChosen t (clicked_edit id) c h =
      if_elim IsChosen _ (record t { edit_target = some id; edit_open = true }) t
        (λ b. record { target = h.target; sent = h.sent; waiting = h.waiting }) (λ b. h)
  step-IsChosen t (clicked_delete id) c h =
      if_elim IsChosen _ (record t { delete_target = some id }) t (λ b. retarget t (some id) c h)
        (λ b. h)
  step-IsChosen t (edit_changed true) c h = record {
    target = h.target;
    sent = h.sent;
    waiting = h.waiting;
  }
  step-IsChosen t (edit_changed false) c h = record {
    target = h.target;
    sent = h.sent;
    waiting = h.waiting;
  }
  step-IsChosen t confirmed c h =
      if_elim IsChosen _ t (handle_delete rows t) (λ b. h) (λ b. handle_delete-IsChosen t b h)
  step-IsChosen t cancelled c h =
      if_elim IsChosen _ t (record t { delete_target = none }) (λ b. h) (λ b. retarget t none tt h)
  step-IsChosen t closed c h = retarget t none tt h
  step-IsChosen t (replied i reply) c h = elim (Option-cases (get_elem? t.waiting i)) [
    | inl e ↦ rw (e, step) h
    | inr (call, e) ↦
        rw (e, step)
          (finish-IsChosen call reply (record t { waiting = remove_at i t.waiting })
            (record {
              target = h.target;
              sent = h.sent;
              waiting = OneOfEach-remove_at (kind_of rows) t.waiting i h.waiting;
            }))
  ]

  -- Whatever is clicked and replied in a table from which nothing was sent before, each row whose deletion is sent is one
  -- whose button to delete was clicked, and of the deletions, as of each other kind of request, at most one waits; from
  -- any other table this holds if it held before.
  pub run-IsChosen :
      (es : List (Event A)) (t : Table A)
      → All (Chooses P) es
      → IsChosen t
      → IsChosen (run rows t es)
  unfolding run
  run-IsChosen [] t cs h = h
  run-IsChosen (e ∷ es) t (c, cs) h = run-IsChosen es (step rows t e) cs (step-IsChosen t e c h)
