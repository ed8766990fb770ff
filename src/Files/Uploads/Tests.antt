-- ===== src/Files/Uploads/Tests.antt =====
-- Runs of Files/Uploads.antt, and the theorems of Files/Targets.antt at concrete inputs.
use ventopanel.Base.{◌≡◌, refl, true, none, some, List, [], ◌∷◌, ◌++◌, map, Text, Option, text}
use ventopanel.Api.Session.{Browser}
use ventopanel.Files.Uploads.{
  Visit, Event, opened, opened_folder, changed_server, dropped, render, upload_of, step, run,
}
use ventopanel.Files.Targets.{run-dropped, run-dropped_left}

abbrev visitor : Browser
visitor = record { in_browser = true; token = some (text "t"); location = text "/files" }

abbrev root : Visit
root = record { path = text "/"; server_id = text "s1" }

abbrev no_message : Text → Option Text
no_message body = none

-- The folder is another one when the server is chosen.
abbrev moves : List Event
moves = opened_folder (text "/www") ∷ changed_server (text "s2") ∷ []

shows_second_server : (run no_message (opened root visitor) moves).shown.server_id ≡ text "s2"
unfolding run step render opened
shows_second_server = refl

run-dropped_example :
    let u = run no_message (opened root visitor) moves in
    (step no_message u (dropped (text "a.txt" ∷ []))).sent
    ≡ u.sent ++ upload_of u.shown (text "a.txt" ∷ []) ∷ []
run-dropped_example =
    run-dropped no_message moves root visitor (text "a.txt") [] ((λ e. refl), ((λ e. cc), tt))

run-dropped_left_example :
    (step no_message
      (run no_message (opened root visitor) (map changed_server (text "s2" ∷ [])))
      (dropped (text "a.txt" ∷ []))).sent
    ≡ upload_of root (text "a.txt" ∷ []) ∷ []
run-dropped_left_example =
    run-dropped_left no_message (text "s2" ∷ []) root visitor (text "a.txt") [] refl
