-- ===== src/Audit/Chips.antt =====
-- The colours of the chips in frontend/app/(dashboard)/audit/page.tsx, beside the classes of Audit.antt.
use ventopanel.Base.{
  ◌≡◌, refl, subst, inl, inr, ◌⊎◌, ◌||◌, true, Option-cases, List, [], ◌∷◌, Text, text, to_lower,
  contains, lookup, includes, All, All-includes, All-lookup,
}
use ventopanel.Forms.Typing.{some_or}
use ventopanel.Audit.{success_statuses, error_statuses, is_success, is_error}

pub data Chip : Type 0 where
  green_chip blue_chip sky_chip yellow_chip red_chip muted_chip : Chip

-- `STATUS_CHIP`
abbrev pub status_chip : List (Text × Chip)
status_chip =
    (text "deployed", green_chip)
    ∷ (text "connected", green_chip)
    ∷ (text "provisioned", green_chip)
    ∷ (text "ready_for_deploy", blue_chip)
    ∷ (text "ssl_active", blue_chip)
    ∷ (text "ssl_renewed", blue_chip)
    ∷ (text "deploying", sky_chip)
    ∷ (text "provisioning", sky_chip)
    ∷ (text "pending", yellow_chip)
    ∷ (text "access_denied", red_chip)
    ∷ (text "deploy_failed", red_chip)
    ∷ (text "provision_failed", red_chip)
    ∷ (text "ssl_failed", red_chip)
    ∷ (text "connection_failed", red_chip)
    ∷ []

-- `chipClass`; no status has the name of a member that every object inherits.
unfoldable pub chip_class : Text → Chip
chip_class s = some_or (lookup (to_lower s) status_chip) muted_chip

-- A chip of this colour on a status in small letters.
abbrev pub IsFor : Chip → Text → Type 0
IsFor red_chip s =
    (includes error_statuses s || contains s (text "fail") || contains s (text "error")) ≡ true
IsFor green_chip s = includes success_statuses s ≡ true
IsFor blue_chip s = includes success_statuses s ≡ true
IsFor _ s = Unit {0}

status_chip-IsFor : All (λ e. IsFor e.1 e.0) status_chip
status_chip-IsFor = (
  refl,
  (
    refl,
    (refl, (refl, (refl, (refl, (tt, (tt, (tt, (refl, (refl, (refl, (refl, (refl, tt)))))))))))),
  ),
)

found-IsFor : (s : Text) → IsFor (some_or (lookup s status_chip) muted_chip) s
found-IsFor s = elim (Option-cases (lookup s status_chip)) [
  | inl e ↦ rw e tt
  | inr (c, e) ↦ rw e (All-lookup (λ t chip. IsFor chip t) status_chip s c e status_chip-IsFor)
]

abbrev pub IsBright : Chip → Type 0
IsBright c = (c ≡ green_chip) ⊎ (c ≡ blue_chip)

success-IsBright :
    (s : Text)
    → includes success_statuses s ≡ true
    → IsBright (some_or (lookup s status_chip) muted_chip)
unfolding lookup
success-IsBright s h =
    All-includes (λ t. IsBright (some_or (lookup t status_chip) muted_chip)) success_statuses s h
      (inl refl, (inl refl, (inl refl, (inr refl, (inr refl, (inr refl, tt))))))

-- A red chip stands only on what the page counts as an error, and what it counts as a success has a green or a blue
-- one.
chip_class-classes :
    (s : Text)
    → (chip_class s ≡ red_chip → is_error s ≡ true)
      × (is_success s ≡ true → IsBright (chip_class s))
unfolding chip_class is_error is_success
chip_class-classes s = (
  (λ e. subst (λ c. IsFor c (to_lower s)) e (found-IsFor (to_lower s))),
  (λ h. success-IsBright (to_lower s) h),
)
