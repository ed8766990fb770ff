-- ===== src/Permissions/Saved.antt =====
-- The mode that the permissions modal sends is the one that its checkboxes show.
use ventopanel.Base.{
  ℕ, ◌<◌, ◌≡◌, refl, ap, ◌⊎◌, inl, some, List, [], ◌∷◌, Text, length, take, All-take, All-keep_if,
  keep_if_of_All, arith,
}
use ventopanel.Permissions.{state_to_dir_to_mode, bits_to_digit, is_octal, octal_digits}
use ventopanel.Permissions.Conversions.{mode_to_state-eq-none_iff}
use ventopanel.Permissions.Modal.{
  Modal, initial, settle, handle_octal_input, handle_save, Event, typed, toggled, clicked_save,
  replied, step, run,
}

-- The octal field holds the mode of the checkboxes, or too little to be saved.
abbrev pub InStep : Modal → Type 0
InStep m = (m.octal ≡ state_to_dir_to_mode m.state) ⊎ (length m.octal < 3)

-- Cleaning a text of octal digits changes nothing, so the length of a refused one is its own.
octal_digits-take-octal_digits :
    (n : ℕ) (t : Text) → octal_digits (take n (octal_digits t)) ≡ take n (octal_digits t)
octal_digits-take-octal_digits n t =
    keep_if_of_All is_octal (take n (octal_digits t))
      (All-take _ n (octal_digits t) (All-keep_if is_octal t))

handle_octal_input-InStep : (val : Text) (m : Modal) → InStep (settle (handle_octal_input val m))
unfolding settle handle_octal_input
handle_octal_input-InStep val m = ground (
  arith,
  mode_to_state-eq-none_iff (take 4 (octal_digits val)),
  ap length (octal_digits-take-octal_digits 4 val),
)

step-InStep : (m : Modal) (e : Event) → InStep m → InStep (step m e)
unfolding step
step-InStep m (typed val) h = handle_octal_input-InStep val m
step-InStep m (toggled entity bit) h = inl refl
step-InStep m clicked_save h = ground arith
step-InStep m (replied ok) h = h

run-InStep : (m : Modal) (es : List Event) → InStep m → InStep (run m es)
unfolding run
run-InStep m [] h = h
run-InStep m (e ∷ es) h = run-InStep (step m e) es (step-InStep m e h)

initial-InStep : InStep initial
unfolding state_to_dir_to_mode bits_to_digit
initial-InStep = inl refl

-- After any typing, toggling and saving, a mode that is sent is the mode that the checkboxes
-- show.
pub handle_save-run :
    (es : List Event) (sent : Text)
    → (handle_save (run initial es)).1 ≡ some sent
    → sent ≡ state_to_dir_to_mode (run initial es).state
unfolding handle_save
handle_save-run es sent e = ground (arith, run-InStep initial es initial-InStep)
