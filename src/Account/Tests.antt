-- ===== src/Account/Tests.antt =====
-- Runs of the definitions for the profile and the settings, and the theorems at concrete inputs.
use ventopanel.Base.{ℕ, ◌≡◌, refl, text}
use ventopanel.Account.Profile.{refused, handle_pwd_submit}
use ventopanel.Account.Settings.{threshold, at_least_one, digits_from}

reads_digits : threshold (text " 12abc") ≡ 12
unfolding threshold at_least_one digits_from
reads_digits = refl

no_number_is_one : threshold (text "abc") ≡ 1
unfolding threshold at_least_one
no_number_is_one = refl

two_passwords_are_refused :
    handle_pwd_submit {R = ℕ}
      (record { current = text "a"; next = text "longenough"; confirm = text "longenougH" })
    ≡ refused (text "Passwords do not match")
unfolding handle_pwd_submit
two_passwords_are_refused = refl
