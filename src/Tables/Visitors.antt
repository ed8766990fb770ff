-- ===== src/Tables/Visitors.antt =====
-- The tables of Tables/Rows.antt for who is no admin, and the dialog of one row while another is deleted.
use ventopanel.Base.{
  ◌≡◌, refl, ap, ◌∙◌, inl, inr, if◌then◌else◌, true, false, Option, none, some, Option-cases, List,
  [], ◌∷◌, ◌++◌, Text, get_elem?, remove_at, All, All-append, All-get_elem?,
}
use ventopanel.Api.Fetch.{Reply}
use ventopanel.Access.{use_auth}
use ventopanel.Tables.Rows.{
  Rows, RowCall, action, removal, Table, Event, clicked, clicked_edit, clicked_delete, edit_changed,
  confirmed, cancelled, closed, replied, send, handle_delete, finish, step, run,
}
use ventopanel.Tables.Sent.{if_elim}

module _ {A : Type 0} (rows : Rows A) where
  open rows use {decode}

  abbrev pub IsAction : RowCall A → Type 0
  IsAction (action a id) = Unit {0}
  IsAction (removal id) = ⊥

  -- The visitor is no admin, no deletion is to be confirmed, and none was sent.
  pub record IsVisited (t : Table A) : Type 0 where
    pub visitor : (use_auth decode t.mounted).is_admin ≡ false
    pub target : t.delete_target ≡ none
    pub sent : All IsAction t.sent
    pub waiting : All IsAction t.waiting

  send-IsVisited :
      (a : A) (id : Text) (t : Table A) → IsVisited t → IsVisited (send rows (action a id) t)
  send-IsVisited a id t h = record {
    visitor = h.visitor;
    target = h.target;
    sent = All-append IsAction t.sent (action a id ∷ []) h.sent (tt, tt);
    waiting = All-append IsAction t.waiting (action a id ∷ []) h.waiting (tt, tt);
  }

  closed-IsVisited : (t : Table A) → IsVisited t → IsVisited (record t { delete_target = none })
  closed-IsVisited t h = record {
    visitor = h.visitor;
    target = refl;
    sent = h.sent;
    waiting = h.waiting;
  }

  finish-IsVisited :
      (call : RowCall A) (reply : Option Reply) (t : Table A)
      → IsAction call
      → IsVisited t
      → IsVisited (finish rows call reply t)
  unfolding finish
  finish-IsVisited (action a id) reply t c h = record {
    visitor = h.visitor;
    target = h.target;
    sent = h.sent;
    waiting = h.waiting;
  }
  finish-IsVisited (removal id) reply t c h = absurd c

  step-IsVisited : (t : Table A) (e : Event A) → IsVisited t → IsVisited (step rows t e)
  unfolding step handle_delete
  step-IsVisited t (clicked a id) h =
      if_elim IsVisited _ (send rows (action a id) t) t (λ b. send-IsVisited a id t h) (λ b. h)
  step-IsVisited t (clicked_edit id) h =
      if_elim IsVisited _ (record t { edit_target = some id; edit_open = true }) t
        (λ b. record { visitor = h.visitor; target = h.target; sent = h.sent; waiting = h.waiting })
        (λ b. h)
  step-IsVisited t (clicked_delete id) h = rw (h.visitor, step) h
  step-IsVisited t (edit_changed true) h = record {
    visitor = h.visitor;
    target = h.target;
    sent = h.sent;
    waiting = h.waiting;
  }
  step-IsVisited t (edit_changed false) h = record {
    visitor = h.visitor;
    target = h.target;
    sent = h.sent;
    waiting = h.waiting;
  }
  step-IsVisited t confirmed h =
      if_elim IsVisited _ t (handle_delete rows t) (λ b. h) (λ b. rw (h.target, handle_delete) h)
  step-IsVisited t cancelled h =
      if_elim IsVisited _ t (record t { delete_target = none }) (λ b. h) (λ b. closed-IsVisited t h)
  step-IsVisited t closed h = closed-IsVisited t h
  step-IsVisited t (replied i reply) h = elim (Option-cases (get_elem? t.waiting i)) [
    | inl e ↦ rw (e, step) h
    | inr (call, e) ↦
        let (is_action, rest) = All-get_elem? IsAction t.waiting i call h.waiting e in
        rw (e, step)
          (finish-IsVisited call reply (record t { waiting = remove_at i t.waiting }) is_action
            (record { visitor = h.visitor; target = h.target; sent = h.sent; waiting = rest }))
  ]

  -- Who is no admin deletes nothing in a table: on one where no deletion is to be confirmed and none was sent, whatever is
  -- clicked and replied, none is sent.
  pub run-IsVisited : (es : List (Event A)) (t : Table A) → IsVisited t → IsVisited (run rows t es)
  unfolding run
  run-IsVisited [] t h = h
  run-IsVisited (e ∷ es) t h = run-IsVisited es (step rows t e) (step-IsVisited t e h)

  ask :
      (t : Table A) (id : Text)
      → (use_auth decode t.mounted).is_admin ≡ true
      → step rows t (clicked_delete id) ≡ record t { delete_target = some id }
  unfolding step
  ask t id h = ap (λ b. if b then record t { delete_target = some id } else t) h

  ordered :
      (t : Table A) (id : Text) (calls : List (RowCall A))
      → calls ≡ []
      → step rows (record t { delete_target = some id; waiting = calls }) confirmed ≡ record t {
        delete_target = some id;
        waiting = removal id ∷ [];
        sent = t.sent ++ removal id ∷ [];
      }
  unfolding step handle_delete
  ordered t id calls e = rw e refl

  asked_again :
      (t : Table A) (id other : Text)
      → (use_auth decode t.mounted).is_admin ≡ true
      → t.waiting ≡ []
      → run rows t (clicked_delete id ∷ confirmed ∷ closed ∷ clicked_delete other ∷ []) ≡ record t {
        delete_target = some other;
        waiting = removal id ∷ [];
        sent = t.sent ++ removal id ∷ [];
      }
  unfolding run step
  asked_again t id other h w =
      ap (λ u. step rows (step rows (step rows u confirmed) closed) (clicked_delete other))
        (ask t id h)
      ∙ ap (λ u. step rows (step rows u closed) (clicked_delete other)) (ordered t id t.waiting w)
      ∙ ask _ other h

  -- An admin who closes the dialog with the Escape key while its deletion is under way, and then asks for the deletion of
  -- another row, has that dialog closed by the reply to the first, without it being confirmed or cancelled.
  pub run-closed_other :
      (t : Table A) (id other : Text) (reply : Option Reply)
      → (use_auth decode t.mounted).is_admin ≡ true
      → t.waiting ≡ []
      → ((run rows t
            (clicked_delete id ∷ confirmed ∷ closed ∷ clicked_delete other ∷ [])).delete_target
          ≡ some other)
        × ((run rows t (
              clicked_delete id
              ∷ confirmed
              ∷ closed
              ∷ clicked_delete other
              ∷ replied 0 reply
              ∷ [])).delete_target
            ≡ none)
        × ((run rows t (
              clicked_delete id
              ∷ confirmed
              ∷ closed
              ∷ clicked_delete other
              ∷ replied 0 reply
              ∷ [])).sent
            ≡ t.sent ++ removal id ∷ [])
  unfolding run step finish
  run-closed_other t id other reply h w =
      let again = asked_again t id other h w in
      (
        ap (λ u. u.delete_target) again,
        ap (λ u. (step rows u (replied 0 reply)).delete_target) again,
        ap (λ u. (step rows u (replied 0 reply)).sent) again,
      )
