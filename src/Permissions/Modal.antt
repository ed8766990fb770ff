-- ===== src/Permissions/Modal.antt =====
-- The modal of frontend/components/permissions-modal.tsx as a state machine: its handlers, the effect that
-- follows a change of the bits, and the two halves of a save, before and after the reply.
use ventopanel.Base.{
  ltb, if◌then◌else◌, Bool, true, false, not, Option, none, some, List, [], ◌∷◌, Text, text, length,
  take,
}
use ventopanel.Permissions.{TriBits, PermState, state_to_dir_to_mode, octal_digits, mode_to_state}

pub record Modal : Type 0 where
  pub state : PermState
  pub octal : Text
  pub saving : Bool

abbrev pub read_write : TriBits
read_write = record { r = true; w = true; x = false }

abbrev pub read_only : TriBits
read_only = record { r = true; w = false; x = false }

abbrev pub initial : Modal
initial = record {
  state = record { owner = read_write; group = read_only; public = read_only };
  octal = text "644";
  saving = false;
}

-- The effect on `[state]`.
unfoldable pub sync : Modal → Modal
sync m = record m { octal = state_to_dir_to_mode m.state }

-- React runs the effect when a handler has set the state to a new object.
unfoldable pub settle : Modal × Bool → Modal
unfolding sync
settle (m, true) = sync m
settle (m, false) = m

unfoldable pub handle_octal_input : Text → Modal → Modal × Bool
handle_octal_input val m =
    let clean = take 4 (octal_digits val) in
    elim (mode_to_state clean) [
      | none ↦ (record m { octal = clean }, false)
      | some parsed ↦ (record m { octal = clean; state = parsed }, true)
    ]

pub data Entity : Type 0 where
  owner group public : Entity

pub data Bit : Type 0 where
  r w x : Bit

abbrev pub flip : Bit → TriBits → TriBits
flip r b = record b { r = not b.r }
flip w b = record b { w = not b.w }
flip x b = record b { x = not b.x }

abbrev pub flip_in : Entity → Bit → PermState → PermState
flip_in owner bit s = record s { owner = flip bit s.owner }
flip_in group bit s = record s { group = flip bit s.group }
flip_in public bit s = record s { public = flip bit s.public }

unfoldable pub toggle : Entity → Bit → Modal → Modal × Bool
toggle entity bit m = (record m { state = flip_in entity bit m.state }, true)

-- What `handleSave` does before its `await`: it refuses a short mode, or sends the mode.
unfoldable pub handle_save : Modal → Modal × Option Text
handle_save m =
    if ltb (length m.octal) 3 then (m, none) else (record m { saving = true }, some m.octal)

-- What it does after, whatever the reply: `finally`. The modal closes on success only.
unfoldable pub save_finished : Bool → Modal → Modal × Bool
save_finished ok m = (record m { saving = false }, ok)

pub data Event : Type 0 where
  typed : Text → Event
  toggled : Entity → Bit → Event
  clicked_save : Event
  replied : Bool → Event

-- One event, with the render and the effect that follow it. The save button is disabled while a
-- save runs and while the mode is short.
unfoldable pub step : Modal → Event → Modal
unfolding settle handle_octal_input toggle handle_save save_finished
step m (typed val) = settle (handle_octal_input val m)
step m (toggled entity bit) = settle (toggle entity bit m)
step m clicked_save = if m.saving then m else (handle_save m).0
step m (replied ok) = (save_finished ok m).0

unfoldable pub run : Modal → List Event → Modal
run m [] = m
run m (e ∷ es) = run (step m e) es
