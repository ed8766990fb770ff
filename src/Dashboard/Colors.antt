-- ===== src/Dashboard/Colors.antt =====
-- The errors of Dashboard.antt and their colours.
use ventopanel.Base.{
  ◌+◌, ◌≤◌, ◌≡◌, refl, sym, ap, subst, ◌∙◌, ◌↔◌, inl, inr, Bool, true, false, Option-cases, Text,
  lookup, All, All-includes, All-lookup, arith,
}
use ventopanel.Forms.Typing.{some_or}
use ventopanel.Monitor.Points.{rounded_pct-le}
use ventopanel.Dashboard.{
  Color, red, gray, status_colors, status_color, error_statuses, is_error_status, Summary, mini_bar,
  uptime_bar,
}

abbrev is_red : Color → Bool
is_red red = true
is_red _ = false

-- Each colour of the object is red only for an error.
abbrev IsRightFor : Text → Color → Type 0
IsRightFor s c = is_red c ≡ true → is_error_status s ≡ true

status_colors-IsRightFor : All (λ e. IsRightFor e.0 e.1) status_colors
unfolding is_error_status
status_colors-IsRightFor = (
  (λ k. cc),
  (
    (λ k. cc),
    (
      (λ k. cc),
      (
        (λ k. cc),
        (
          (λ k. cc),
          (
            (λ k. cc),
            (
              (λ k. cc),
              (
                (λ k. cc),
                (
                  (λ k. refl),
                  (
                    (λ k. refl),
                    ((λ k. refl), ((λ k. refl), ((λ k. refl), ((λ k. refl), ((λ k. cc), tt))))),
                  ),
                ),
              ),
            ),
          ),
        ),
      ),
    ),
  ),
)

is_error_status-red : (s : Text) → is_error_status s ≡ true → status_color s ≡ red
unfolding is_error_status status_color lookup
is_error_status-red s h =
    All-includes (λ t. status_color t ≡ red) error_statuses s h
      (refl, (refl, (refl, (refl, (refl, (refl, tt))))))

red-is_error_status : (s : Text) → status_color s ≡ red → is_error_status s ≡ true
unfolding status_color
red-is_error_status s h = elim (Option-cases (lookup s status_colors)) [
  | inl e ↦
      absurd (
        subst (λ c. is_red c ≡ true → ⊥) (ap (λ o. some_or o gray) (sym e)) (λ k. cc) (ap is_red h))
  | inr (c, e) ↦
      All-lookup IsRightFor status_colors s c e status_colors-IsRightFor
        (ap (λ o. is_red (some_or o gray)) (sym e) ∙ ap is_red h)
]

-- The dashboard counts an event as an error exactly when it shows the event's status in red.
is_error_status_iff : (s : Text) → (is_error_status s ≡ true) ↔ (status_color s ≡ red)
is_error_status_iff s = (is_error_status-red s, red-is_error_status s)

-- The bar of the uptime is never wider than its frame.
uptime_bar-le : (s : Summary) → uptime_bar s ≤ 100
unfolding uptime_bar mini_bar
uptime_bar-le s = ground (arith, rounded_pct-le s.sites_up (s.sites_up + s.sites_down))
