-- ===== src/Logs/Controls/Tests.antt =====
-- Runs of Logs/Controls.antt, and its theorem at a concrete input.
use ventopanel.Base.{◌≡◌, refl, List, [], ◌∷◌, text, show}
use ventopanel.Logs.Address.{docker}
use ventopanel.Logs.Controls.{
  Event, chose_server, chose_source, untouched, visible, download_name, step, run,
}

-- The first container of the first server, and then another server with its containers.
abbrev choices : List Event
choices = chose_source docker ∷ chose_server (text "s1") (text "db" ∷ text "web" ∷ []) ∷ []

selects_first : (run untouched choices).container ≡ text "db"
unfolding run step
selects_first = refl

shows_found :
    visible (text "ERR") (
      record { id = 0; line = text "an error"; ts = 1 }
      ∷ record { id = 1; line = text "fine"; ts = 2 }
      ∷ [])
    ≡ record { id = 0; line = text "an error"; ts = 1 } ∷ []
unfolding visible
shows_found = refl

names_download : download_name (text "s1") docker 17 ≡ text "logs-s1-docker-17.txt"
unfolding download_name show
names_download = refl
