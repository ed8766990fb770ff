-- ===== src/Tables/Rows/Tests.antt =====
-- Runs of the tables of frontend/components/servers-table.tsx and frontend/components/sites-table.tsx, and the theorems at
-- concrete inputs.
use ventopanel.Base.{
  ℕ, ◌≡◌, refl, true, false, Option, none, some, List, [], ◌∷◌, ◌++◌, Text, text, arith,
}
use ventopanel.Api.Session.{Browser, TokenPayload, get_role, get_token_payload, get_token}
use ventopanel.Api.Fetch.{perform, api_fetch}
use ventopanel.Access.{use_auth}
use ventopanel.Tables.Rows.{
  action, removal, Table, Event, clicked, clicked_delete, confirmed, closed, replied, handle_delete,
  finish, step, run,
}
use ventopanel.Tables.Kinds.{ServerAction, connect, provision, server_rows}
use ventopanel.Tables.Sent.{IsChosen, run-IsChosen}
use ventopanel.Tables.Visitors.{IsVisited, run-IsVisited, run-closed_other}

abbrev payload_of : Text → TokenPayload
payload_of role = record {
  uid = none;
  tid = none;
  role = some role;
  email = none;
  totp_enabled = none;
  exp = none;
}

abbrev admin : Text → Option TokenPayload
admin part = some (payload_of (text "admin"))

abbrev editor : Text → Option TokenPayload
editor part = some (payload_of (text "editor"))

abbrev reads : Text → Option ℕ
reads body = none

abbrev visitor : Browser
visitor = record { in_browser = true; token = some (text "a.b.c"); location = text "/servers" }

abbrev fresh : {A : Type 0} → Table A
fresh = record {
  edit_target = none;
  edit_open = false;
  delete_target = none;
  waiting = [];
  sent = [];
  browser = visitor;
  mounted = visitor;
}

abbrev clicks : List (Event ServerAction)
clicks =
    clicked connect (text "7")
    ∷ clicked connect (text "8")
    ∷ clicked provision (text "7")
    ∷ clicked_delete (text "8")
    ∷ confirmed
    ∷ confirmed
    ∷ replied 0 none
    ∷ clicked connect (text "8")
    ∷ []

admin_sends :
    (run (server_rows reads admin) fresh clicks).sent
    ≡ action connect (text "7")
      ∷ action provision (text "7")
      ∷ removal (text "8")
      ∷ action connect (text "8")
      ∷ []
unfolding run step handle_delete finish server_rows use_auth get_role get_token_payload get_token
    perform api_fetch
admin_sends = refl

run-IsChosen_example :
    IsChosen
      (server_rows reads admin)
      (λ id. id ≡ text "8")
      (run (server_rows reads admin) fresh clicks)
run-IsChosen_example =
    run-IsChosen (server_rows reads admin) (λ id. id ≡ text "8") clicks fresh
      (tt, (tt, (tt, (refl, (tt, (tt, (tt, (tt, tt))))))))
      (record { target = tt; sent = tt; waiting = λ k. omega arith })

editor_is_no_admin : (use_auth editor visitor).is_admin ≡ false
unfolding use_auth get_role get_token_payload get_token perform api_fetch
editor_is_no_admin = refl

run-IsVisited_example :
    IsVisited (server_rows reads editor) (run (server_rows reads editor) fresh clicks)
unfolding server_rows
run-IsVisited_example =
    run-IsVisited (server_rows reads editor) clicks fresh
      (record { visitor = editor_is_no_admin; target = refl; sent = tt; waiting = tt })

admin_is_admin : (use_auth admin visitor).is_admin ≡ true
unfolding use_auth get_role get_token_payload get_token perform api_fetch
admin_is_admin = refl

abbrev asks : List (Event ServerAction)
asks = clicked_delete (text "7") ∷ confirmed ∷ closed ∷ clicked_delete (text "8") ∷ []

run-closed_other_example :
    ((run (server_rows reads admin) fresh asks).delete_target ≡ some (text "8"))
    × ((run (server_rows reads admin) fresh (asks ++ replied 0 none ∷ [])).delete_target ≡ none)
    × ((run (server_rows reads admin) fresh (asks ++ replied 0 none ∷ [])).sent
        ≡ removal (text "7") ∷ [])
unfolding server_rows
run-closed_other_example =
    run-closed_other (server_rows reads admin) fresh (text "7") (text "8") none admin_is_admin refl
