-- ===== src/Audit/Statuses.antt =====
-- No status counts as a success and as an error in Audit.antt.
use ventopanel.Base.{
  ◌+◌, ◌≤◌, ◌≡◌, refl, subst, sym, ◌||◌, not, Bool, true, false, Bool-cases, inl, inr, List, [],
  ◌∷◌, Text, text, text_eq, text_eq_iff, to_lower, contains, includes, arith, all,
}
use ventopanel.Audit.{AuditEvent, success_statuses, error_statuses, is_success, is_error, stats_of}

module _ (p : Text → Bool) where
  -- What holds of every text of a list holds of a text that it includes.
  includes-all : (ss : List Text) (t : Text) → all p ss ≡ true → includes ss t ≡ true → p t ≡ true
  includes-all [] t h k = absurd (cc)
  includes-all (s ∷ ss) t h k = elim (Bool-cases (text_eq s t)) [
    | inl e ↦ subst (λ u. p u ≡ true) ((text_eq_iff s t).0 e) (ground arith)
    | inr e ↦ includes-all ss t (ground arith) (ground arith)
  ]

abbrev is_clear : Text → Bool
is_clear s =
    not (includes error_statuses s || contains s (text "fail") || contains s (text "error"))

false_of_not : (b : Bool) → not b ≡ true → b ≡ false
false_of_not true h = sym h
false_of_not false h = refl

is_error-is_success : (s : Text) → is_success s ≡ true → is_error s ≡ false
unfolding is_success is_error
is_error-is_success s h =
    false_of_not _ (includes-all is_clear success_statuses (to_lower s) refl h)

-- The successes and the errors that the page counts are together no more than the events that are loaded:
-- none is counted as both.
errors-stats_of :
    (events : List AuditEvent)
    → (stats_of events).errors + (stats_of events).successes ≤ (stats_of events).total
unfolding stats_of
errors-stats_of [] = omega arith
errors-stats_of (e ∷ events) = elim (Bool-cases (is_success e.to_status)) [
  | inl s ↦ rw (is_error-is_success e.to_status s, s) (omega (arith, errors-stats_of events))
  | inr s ↦ elim (Bool-cases (is_error e.to_status)) [
    | inl b ↦ rw (s, b) (omega (arith, errors-stats_of events))
    | inr b ↦ rw (s, b) (omega (arith, errors-stats_of events))
  ]
]
