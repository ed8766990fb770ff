-- ===== src/Permissions/Conversions.antt =====
-- The conversions of frontend/components/permissions-modal.tsx undo one another.
use ventopanel.Base.{
  ℕ, zero, suc, ◌-◌, ◌<◌, ◌≤◌, ◌≡◌, refl, ◌↔◌, true, none, some, [], ◌∷◌, Text, length, take_last,
  length-take_last, All, All-drop, All-keep_if, arith,
}
use ventopanel.Permissions.{
  TriBits, PermState, bits_to_digit, digit_to_bits, digit, state_to_dir_to_mode, is_octal,
  octal_digits, parse_digits, mode_to_state,
}

digit_to_bits-bits_to_digit : (b : TriBits) → digit_to_bits (bits_to_digit b) ≡ b
unfolding digit_to_bits bits_to_digit
digit_to_bits-bits_to_digit b = ground arith

bits_to_digit-le : (b : TriBits) → bits_to_digit b ≤ 7
unfolding bits_to_digit
bits_to_digit-le b = ground arith

-- Every octal digit comes back, one by one.
bits_to_digit-digit_to_bits : (n : ℕ) → n < 8 → bits_to_digit (digit_to_bits n) ≡ n
unfolding bits_to_digit digit_to_bits
bits_to_digit-digit_to_bits zero h = refl
bits_to_digit-digit_to_bits (suc zero) h = refl
bits_to_digit-digit_to_bits (suc (suc zero)) h = refl
bits_to_digit-digit_to_bits (suc (suc (suc zero))) h = refl
bits_to_digit-digit_to_bits (suc (suc (suc (suc zero)))) h = refl
bits_to_digit-digit_to_bits (suc (suc (suc (suc (suc zero))))) h = refl
bits_to_digit-digit_to_bits (suc (suc (suc (suc (suc (suc zero)))))) h = refl
bits_to_digit-digit_to_bits (suc (suc (suc (suc (suc (suc (suc zero))))))) h = refl
bits_to_digit-digit_to_bits (suc (suc (suc (suc (suc (suc (suc (suc n)))))))) h =
    absurd (omega arith)

octal_digits-digits :
    (a b c : ℕ)
    → a ≤ 7
    → b ≤ 7
    → c ≤ 7
    → octal_digits (digit a ∷ digit b ∷ digit c ∷ []) ≡ digit a ∷ digit b ∷ digit c ∷ []
octal_digits-digits a b c h k l = ground arith

digit-sub : (a : ℕ) → digit a - b'0' ≡ a
digit-sub a = omega arith

-- Reading the mode of a permission state gives the state back.
mode_to_state-state_to_dir_to_mode :
    (s : PermState) → mode_to_state (state_to_dir_to_mode s) ≡ some s
unfolding mode_to_state state_to_dir_to_mode parse_digits
mode_to_state-state_to_dir_to_mode s =
    rw
      (octal_digits-digits (bits_to_digit s.owner) (bits_to_digit s.group) (bits_to_digit s.public)
        (bits_to_digit-le s.owner) (bits_to_digit-le s.group) (bits_to_digit-le s.public))
      (simp (digit-sub, digit_to_bits-bits_to_digit))

digit-digit_to_bits :
    (c : ℕ) → is_octal c ≡ true → digit (bits_to_digit (digit_to_bits (c - b'0'))) ≡ c
digit-digit_to_bits c h =
    let small : c - b'0' < 8 = ground arith in
    rw (bits_to_digit-digit_to_bits (c - b'0') small) (ground arith)

parse_digits-mode :
    (t : Text) (s : PermState)
    → All (λ c. is_octal c ≡ true) t
    → parse_digits t ≡ some s
    → state_to_dir_to_mode s ≡ t
unfolding parse_digits state_to_dir_to_mode
parse_digits-mode (o ∷ g ∷ p ∷ []) s (ho, (hg, (hp, _))) e =
    ground (arith, digit-digit_to_bits o ho, digit-digit_to_bits g hg, digit-digit_to_bits p hp)
parse_digits-mode t s h e = cc

-- The mode of the state read from a text is the last three octal digits of the text.
pub state_to_dir_to_mode-mode_to_state :
    (mode : Text) (s : PermState)
    → mode_to_state mode ≡ some s
    → state_to_dir_to_mode s ≡ take_last 3 (octal_digits mode)
unfolding mode_to_state
state_to_dir_to_mode-mode_to_state mode s e =
    parse_digits-mode (take_last 3 (octal_digits mode)) s
      (All-drop _ (length (octal_digits mode) - 3) (octal_digits mode) (All-keep_if is_octal mode))
      e

parse_digits-eq-none_iff : (t : Text) → length t ≤ 3 → (parse_digits t ≡ none) ↔ (length t < 3)
unfolding parse_digits
parse_digits-eq-none_iff [] h = ((λ _. omega arith), (λ _. refl))
parse_digits-eq-none_iff (a ∷ []) h = ((λ _. omega arith), (λ _. refl))
parse_digits-eq-none_iff (a ∷ b ∷ []) h = ((λ _. omega arith), (λ _. refl))
parse_digits-eq-none_iff (a ∷ b ∷ c ∷ []) h = ((λ e. cc), (λ l. absurd (omega arith)))
parse_digits-eq-none_iff (a ∷ b ∷ c ∷ d ∷ t) h = absurd (omega arith)

-- A text is refused exactly when it holds fewer than three octal digits.
pub mode_to_state-eq-none_iff :
    (mode : Text) → (mode_to_state mode ≡ none) ↔ (length (octal_digits mode) < 3)
unfolding mode_to_state
mode_to_state-eq-none_iff mode =
    let digits : Text = octal_digits mode in
    let kept = length-take_last 3 digits in
    let iff = parse_digits-eq-none_iff (take_last 3 digits) (omega (arith, kept)) in
    ((λ e. omega (arith, iff.0 e, kept)), (λ l. iff.1 (omega (arith, kept))))
