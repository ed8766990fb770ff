-- ===== src/Account/Profile.antt =====
-- The forms of frontend/app/(dashboard)/profile/page.tsx.
use ventopanel.Base.{
  ◌≤◌, ◌≡◌, ◌↔◌, ltb, not, if◌then◌else◌, [], Text, text, text_eq, text_eq_iff, truthy, length,
  arith,
}
use ventopanel.Api.Fetch.{ApiCall, Outcome, ok, threw}
use ventopanel.Api.Calls.Account.{change_password, change_email}

pub record PwdForm : Type 0 where
  pub current : Text
  pub next : Text
  pub confirm : Text

-- What a submission does: a message, or the call.
pub data Submission (A : Type 0) : Type 0 where
  refused : Text → Submission A
  calls : A → Submission A

-- `handlePwdSubmit`
unfoldable pub handle_pwd_submit : {R : Type 0} → PwdForm → Submission (ApiCall R (Unit {0}))
handle_pwd_submit f =
    if ltb (length f.next) 8
    then refused (text "New password must be at least 8 characters")
    else if not (text_eq f.next f.confirm)
    then refused (text "Passwords do not match")
    else calls (change_password f.current f.next)

-- The form after the call.
unfoldable pub pwd_done : Outcome (Unit {0}) → PwdForm → PwdForm
pwd_done (ok done) f = record { current = []; next = []; confirm = [] }
pwd_done (threw e) f = f

pub record EmailForm : Type 0 where
  pub email : Text
  pub password : Text

-- `handleEmailSubmit`
unfoldable pub handle_email_submit : {R : Type 0} → EmailForm → Submission (ApiCall R (Unit {0}))
handle_email_submit f =
    if truthy f.email
    then calls (change_email f.email f.password)
    else refused (text "Enter a new email address")

-- A password is sent exactly when it has at least 8 characters and was typed twice the same.
handle_pwd_submit-calls_iff :
    (R : Type 0) (f : PwdForm)
    → (handle_pwd_submit {R = R} f ≡ calls (change_password f.current f.next))
      ↔ ((8 ≤ length f.next) × (f.next ≡ f.confirm))
unfolding handle_pwd_submit
handle_pwd_submit-calls_iff R f = (
  (λ e. ground (arith, text_eq_iff f.next f.confirm)),
  (λ (long, same). ground (arith, text_eq_iff f.next f.confirm)),
)
