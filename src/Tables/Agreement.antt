-- ===== src/Tables/Agreement.antt =====
-- The badge and the dot of a status, which Tables/Statuses.antt computes apart.
use ventopanel.Base.{
  ◌≡◌, refl, inl, inr, Bool, true, false, ◌||◌, if◌then◌else◌, Bool-cases, Text, text, text_eq,
  to_lower, contains, includes, All-includes,
}
use ventopanel.Tables.Statuses.{
  Variant, success, destructive, warning, secondary, Dot, active_dot, deploying_dot, error_dot,
  idle_dot, switch, good_servers, bad_servers, busy_servers, server_variant, server_dot_of,
  server_dot, site_dot_of, good_sites, bad_sites, busy_sites, site_variant, site_dot,
}

-- The dot that goes with a badge; a grey badge may have any dot but the green one.
abbrev pub Fits : Variant → Dot → Type 0
Fits success d = d ≡ active_dot
Fits destructive d = d ≡ error_dot
Fits warning d = d ≡ deploying_dot
Fits secondary active_dot = ⊥
Fits secondary _ = Unit {0}

-- Without the tests for the green dot there is another one.
grey-Fits :
    (green blue red : Bool)
    → green ≡ false
    → Fits secondary (
        if green
        then active_dot
        else if blue
        then deploying_dot
        else if red
        then error_dot
        else idle_dot)
grey-Fits true blue red h = cc
grey-Fits false true red h = tt
grey-Fits false false true h = tt
grey-Fits false false false h = tt

none_of_three : (a b c : Bool) → (a || (b || (c || false))) ≡ false → (a || b || c) ≡ false
none_of_three true b c h = cc
none_of_three false true c h = cc
none_of_three false false true h = cc
none_of_three false false false h = refl

server_dot_of-Fits :
    (s : Text) → Fits (switch good_servers bad_servers busy_servers s) (server_dot_of s)
server_dot_of-Fits s = elim (Bool-cases (includes good_servers s)) [
  | inl good ↦ rw good (
      All-includes (λ t. server_dot_of t ≡ active_dot) good_servers s good
        (refl, (refl, (refl, tt))))
  | inr no_good ↦ elim (Bool-cases (includes bad_servers s)) [
    | inl bad ↦
        rw (no_good, bad)
          (All-includes (λ t. server_dot_of t ≡ error_dot) bad_servers s bad
            (refl, (refl, (refl, (refl, tt)))))
    | inr no_bad ↦ elim (Bool-cases (includes busy_servers s)) [
      | inl busy ↦
          rw (no_good, no_bad, busy)
            (All-includes (λ t. server_dot_of t ≡ deploying_dot) busy_servers s busy
              (refl, (refl, tt)))
      | inr no_busy ↦
          rw (no_good, no_bad, no_busy)
            (grey-Fits
              (text_eq (text "connected") s
                || text_eq (text "provisioned") s
                || text_eq (text "ready_for_deploy") s)
              (text_eq (text "provisioning") s
                || text_eq (text "deploying") s
                || text_eq (text "pending") s)
              (contains s (text "failed") || text_eq (text "error") s)
              (none_of_three (text_eq (text "connected") s) (text_eq (text "provisioned") s)
                (text_eq (text "ready_for_deploy") s) no_good))
    ]
  ]
]

site_dot_of-Fits : (s : Text) → Fits (switch good_sites bad_sites busy_sites s) (site_dot_of s)
site_dot_of-Fits s = elim (Bool-cases (includes good_sites s)) [
  | inl good ↦
      rw good (
        All-includes (λ t. site_dot_of t ≡ active_dot) good_sites s good (refl, (refl, (refl, tt))))
  | inr no_good ↦ elim (Bool-cases (includes bad_sites s)) [
    | inl bad ↦
        rw (no_good, bad)
          (All-includes (λ t. site_dot_of t ≡ error_dot) bad_sites s bad (refl, (refl, (refl, tt))))
    | inr no_bad ↦ elim (Bool-cases (includes busy_sites s)) [
      | inl busy ↦
          rw (no_good, no_bad, busy)
            (All-includes (λ t. site_dot_of t ≡ deploying_dot) busy_sites s busy (refl, (refl, tt)))
      | inr no_busy ↦
          rw (no_good, no_bad, no_busy)
            (grey-Fits
              (text_eq (text "deployed") s
                || text_eq (text "active") s
                || text_eq (text "ssl_pending") s)
              (text_eq (text "deploying") s || text_eq (text "pending") s)
              (contains s (text "failed") || text_eq (text "error") s)
              (none_of_three (text_eq (text "deployed") s) (text_eq (text "active") s)
                (text_eq (text "ssl_pending") s) no_good))
    ]
  ]
]

-- In the tables of servers and of sites a green badge stands beside a green dot, a red one beside a red dot and a yellow
-- one beside a blue dot, and a green dot beside a green badge.
dots-Fits :
    (status : Text)
    → Fits (server_variant status) (server_dot status)
      × Fits (site_variant status) (site_dot status)
unfolding server_variant server_dot site_variant site_dot
dots-Fits status = (server_dot_of-Fits (to_lower status), site_dot_of-Fits (to_lower status))
