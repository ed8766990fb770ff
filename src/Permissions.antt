-- ===== src/Permissions.antt =====
-- frontend/components/permissions-modal.tsx: the conversions between mode texts and permission bits,
-- and the modal's state. A handler returns the new state and whether it has replaced the bits;
-- React then runs the effect that writes the octal field (`settle`).
pub mod Conversions
pub mod Modal
pub mod Saved
mod Tests
use Prim.Native.Nat.{bit_and}
use ventopanel.Base.{
  ℕ, ◌+◌, ◌-◌, ltb, leb, ◌==◌, if◌then◌else◌, Bool, true, false, not, ◌&&◌, Option, none, some,
  List, [], ◌∷◌, ◌++◌, Text, text, length, take, take_last, keep_if,
}

pub record TriBits : Type 0 where
  pub r : Bool
  pub w : Bool
  pub x : Bool

pub record PermState : Type 0 where
  pub owner : TriBits
  pub group : TriBits
  pub public : TriBits

unfoldable pub bits_to_digit : TriBits → ℕ
bits_to_digit b = (if b.r then 4 else 0) + (if b.w then 2 else 0) + (if b.x then 1 else 0)

unfoldable pub digit_to_bits : ℕ → TriBits
digit_to_bits n = record {
  r = not (bit_and n 4 == 0);
  w = not (bit_and n 2 == 0);
  x = not (bit_and n 1 == 0);
}

-- A digit below ten, as a character.
abbrev pub digit : ℕ → ℕ
digit n = b'0' + n

unfoldable pub state_to_dir_to_mode : PermState → Text
state_to_dir_to_mode s =
    digit (bits_to_digit s.owner)
    ∷ digit (bits_to_digit s.group)
    ∷ digit (bits_to_digit s.public)
    ∷ []

-- the class `[0-7]`
abbrev pub is_octal : ℕ → Bool
is_octal c = leb b'0' c && leb c b'7'

-- `replace(/[^0-7]/g, "")`
abbrev pub octal_digits : Text → Text
octal_digits = keep_if is_octal

unfoldable pub parse_digits : Text → Option PermState
parse_digits (o ∷ g ∷ p ∷ []) = some (record {
  owner = digit_to_bits (o - b'0');
  group = digit_to_bits (g - b'0');
  public = digit_to_bits (p - b'0');
})
parse_digits _ = none

unfoldable pub mode_to_state : Text → Option PermState
mode_to_state mode = parse_digits (take_last 3 (octal_digits mode))

abbrev letter : Bool → ℕ → ℕ
letter b c = if b then c else b'-'

abbrev triple : TriBits → Text
triple b = letter b.r b'r' ∷ letter b.w b'w' ∷ letter b.x b'x' ∷ []

unfoldable pub to_symbolic : PermState → Text
to_symbolic s = triple s.owner ++ triple s.group ++ triple s.public
