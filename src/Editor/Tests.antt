-- ===== src/Editor/Tests.antt =====
-- Runs of the definitions for frontend/components/file-editor.tsx, and the theorems at concrete inputs.
use ventopanel.Base.{◌≡◌, refl, inl, true, false, List, [], ◌∷◌, text, lookup}
use ventopanel.Editor.Language.{lang_of_ext, detect_language}
use ventopanel.Editor.Buffer.{
  opened, load_done, save, save_done, Event, loaded, changed, clicked_save, replied, step, run,
}
use ventopanel.Editor.Saving.{IsCalm, InSync, run-InSync}

language_of_component : detect_language (text "/srv/app/Main.TSX") ≡ text "typescript"
unfolding detect_language lang_of_ext lookup
language_of_component = refl

language_of_environment : detect_language (text "/srv/.env.local") ≡ text "shell"
unfolding detect_language lang_of_ext lookup
language_of_environment = refl

-- After a load that failed the editor is empty, and saving then empties the file of the server.
saves_nothing :
    (run (opened (text "secret")) (loaded false ∷ clicked_save ∷ replied 0 true ∷ [])).disk ≡ []
unfolding run step load_done save save_done
saves_nothing = refl

abbrev session : List Event
session = loaded true ∷ changed (text "b") ∷ clicked_save ∷ replied 0 true ∷ []

session-IsCalm : IsCalm (opened (text "a")) session
unfolding step load_done
session-IsCalm = (refl, tt)

run-InSync_example : InSync (run (opened (text "a")) session)
run-InSync_example =
    run-InSync session (opened (text "a")) session-IsCalm ((λ d. inl refl), tt, (λ l. refl))
