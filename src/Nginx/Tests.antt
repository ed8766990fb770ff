-- ===== src/Nginx/Tests.antt =====
-- Runs of the definitions for frontend/app/(dashboard)/nginx/page.tsx, and the theorems at concrete inputs.
use ventopanel.Base.{◌≡◌, refl, true, false, [], ◌∷◌, text}
use ventopanel.Nginx.Page.{CreateModal, select_first, click_create, press_enter}

abbrev named : CreateModal
named = record { name = text "a"; pending = false; is_open = true; sent = [] }

a_click_waits : (click_create (click_create named)).sent ≡ text "a" ∷ []
unfolding click_create
a_click_waits = refl

enter_does_not_wait : (press_enter (press_enter named)).sent ≡ text "a" ∷ text "a" ∷ []
unfolding press_enter
enter_does_not_wait = refl

keeps_selected : select_first (text "s1" ∷ text "s2" ∷ []) (text "s2") ≡ text "s2"
unfolding select_first
keeps_selected = refl
