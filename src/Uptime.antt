-- ===== src/Uptime.antt =====
-- frontend/app/(dashboard)/uptime/page.tsx: the counts of the sites, and the colours of the dots and percentages.
mod Tests
use ventopanel.Base.{
  ℕ, ◌+◌, ◌≡◌, refl, inl, inr, ◌⊎◌, ◌==◌, leb, ltb, not, if◌then◌else◌, Bool, true, false, List, [],
  ◌∷◌, ◌++◌, Text, text, text_eq, text_eq_iff, truthy, keep_if, length, All, arith,
}

pub data Dot : Type 0 where
  muted_dot green_dot red_dot : Dot

-- `StatusDot`
unfoldable pub status_dot : Text → Dot
status_dot status =
    if not (truthy status)
    then muted_dot
    else if text_eq status (text "up")
    then green_dot
    else red_dot

-- `upCount`, `downCount` and `unchecked`, for the last statuses of the sites.
unfoldable pub up_count : List Text → ℕ
up_count statuses = length (keep_if (λ s. text_eq s (text "up")) statuses)

unfoldable pub down_count : List Text → ℕ
down_count statuses = length (keep_if (λ s. text_eq s (text "down")) statuses)

unfoldable pub unchecked : List Text → ℕ
unchecked statuses = length (keep_if (λ s. not (truthy s)) statuses)

-- A status that the API documents.
abbrev pub IsStatus : Text → Type 0
IsStatus s = (s ≡ []) ⊎ ((s ≡ text "up") ⊎ (s ≡ text "down"))

-- Each site is counted once, if its status is up, down, or none.
counts-length :
    (statuses : List Text)
    → All IsStatus statuses
    → up_count statuses + down_count statuses + unchecked statuses ≡ length statuses
unfolding up_count down_count unchecked
counts-length [] h = refl
counts-length (s ∷ statuses) (inl none, h) = rw none (omega (arith, counts-length statuses h))
counts-length (s ∷ statuses) (inr (inl up), h) = rw up (omega (arith, counts-length statuses h))
counts-length (s ∷ statuses) (inr (inr down), h) = rw down (omega (arith, counts-length statuses h))
