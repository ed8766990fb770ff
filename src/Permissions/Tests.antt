-- ===== src/Permissions/Tests.antt =====
-- Runs of the definitions for frontend/components/permissions-modal.tsx, and the theorems at concrete
-- inputs.
use ventopanel.Base.{◌≡◌, refl, some, List, [], ◌∷◌, text, take_last}
use ventopanel.Permissions.{
  PermState, bits_to_digit, digit_to_bits, state_to_dir_to_mode, octal_digits, parse_digits,
  mode_to_state, to_symbolic,
}
use ventopanel.Permissions.Conversions.{state_to_dir_to_mode-mode_to_state}
use ventopanel.Permissions.Modal
use ventopanel.Permissions.Modal.{
  read_write, read_only, initial, settle, handle_octal_input, toggle, handle_save, save_finished,
  Event, typed, toggled, clicked_save, replied, step, run,
}
use ventopanel.Permissions.Saved.{handle_save-run}

modes : Unit {0}
unfolding mode_to_state parse_digits digit_to_bits state_to_dir_to_mode bits_to_digit
modes = tt

abbrev world_readable : PermState
world_readable = record { owner = read_write; group = read_only; public = read_only }

mode_of_initial : state_to_dir_to_mode world_readable ≡ text "644"
unfolding modes
mode_of_initial = refl

setuid_dropped : mode_to_state (text "x4644") ≡ some world_readable
unfolding modes
setuid_dropped = refl

symbolic : to_symbolic world_readable ≡ text "rw-r--r--"
unfolding to_symbolic
symbolic = refl

state_to_dir_to_mode-mode_to_state_example :
    state_to_dir_to_mode world_readable ≡ take_last 3 (octal_digits (text "x4644"))
state_to_dir_to_mode-mode_to_state_example =
    state_to_dir_to_mode-mode_to_state (text "x4644") world_readable setuid_dropped

abbrev session : List Event
session = typed (text "7a5") ∷ typed (text "755") ∷ toggled Modal.Entity.group Modal.Bit.w ∷ []

saves_what_it_shows : (handle_save (run initial session)).1 ≡ some (text "775")
unfolding run step handle_save modes
saves_what_it_shows = refl

handle_save-run_example : text "775" ≡ state_to_dir_to_mode (run initial session).state
handle_save-run_example = handle_save-run session (text "775") saves_what_it_shows
