-- ===== src/Audit/Times.antt =====
-- The ages of events in frontend/app/(dashboard)/audit/page.tsx. A time is its milliseconds since 1970.
use native.Mathlib.Nat.{div-mul-le_self, lt-mul-div-succ, mul_comm}
use ventopanel.Base.{
  ℕ, ◌+◌, ◌-◌, ◌*◌, ◌/◌, ◌<◌, ◌≤◌, ◌≡◌, ltb, leb, if◌then◌else◌, true, false, Bool-cases, inl, inr,
  ◌++◌, Text, text, show, arith,
}

-- What `relativeTime` shows; `later` is a time that lies ahead, with the seconds up to it.
pub data Age : Type 0 where
  later seconds minutes hours : ℕ → Age
  on_date : Age

abbrev pub age_in_hours : ℕ → Age
age_in_hours h = if ltb h 24 then hours h else on_date

abbrev pub age_in_minutes : ℕ → Age
age_in_minutes m = if ltb m 60 then minutes m else age_in_hours (m / 60)

abbrev pub age_in_seconds : ℕ → Age
age_in_seconds s = if ltb s 60 then seconds s else age_in_minutes (s / 60)

-- `Math.floor` of a negative number of seconds goes down.
unfoldable pub age : ℕ → ℕ → Age
age now created =
    if leb created now
    then age_in_seconds ((now - created) / 1000)
    else later ((created - now + 999) / 1000)

-- `relativeTime`, with the date of the browser's locale as an argument.
unfoldable pub relative_time : (ℕ → Text) → ℕ → ℕ → Text
relative_time date_text now created = elim (age now created) [
  | later n ↦ text "-" ++ show n ++ text "s ago"
  | seconds n ↦ show n ++ text "s ago"
  | minutes n ↦ show n ++ text "m ago"
  | hours n ↦ show n ++ text "h ago"
  | on_date ↦ date_text created
]

-- The milliseconds of that many whole units, and less than one more.
abbrev pub IsWhole : ℕ → ℕ → ℕ → Type 0
IsWhole unit n d = (n * unit ≤ d) × (d < (n + 1) * unit)

-- An age is a number of the largest unit that fits; a date stands for a day or more.
abbrev pub IsAgeOf : ℕ → Age → Type 0
IsAgeOf d (later n) = ⊥
IsAgeOf d (seconds n) = IsWhole 1000 n d × (n < 60)
IsAgeOf d (minutes n) = IsWhole 60000 n d × (1 ≤ n) × (n < 60)
IsAgeOf d (hours n) = IsWhole 3600000 n d × (1 ≤ n) × (n < 24)
IsAgeOf d on_date = 86400000 ≤ d

age_in_hours-IsAgeOf : (d h : ℕ) → IsWhole 3600000 h d → 1 ≤ h → IsAgeOf d (age_in_hours h)
age_in_hours-IsAgeOf d h w k = ground arith

not_ltb : (a b : ℕ) → ltb a b ≡ false → b ≤ a
not_ltb a b e = ground arith

leb_of_le : (a b : ℕ) → a ≤ b → leb a b ≡ true
leb_of_le a b h = ground arith

floor : (a b : ℕ) → 0 < b → (b * (a / b) ≤ a) × (a < b * (a / b + 1))
floor a b h = (omega (arith, div-mul-le_self a b, mul_comm b (a / b)), lt-mul-div-succ a {b = b} h)

age_in_minutes-IsAgeOf : (d m : ℕ) → IsWhole 60000 m d → 1 ≤ m → IsAgeOf d (age_in_minutes m)
age_in_minutes-IsAgeOf d m w k = elim (Bool-cases (ltb m 60)) [
  | inl e ↦ rw e (ground arith)
  | inr e ↦ rw e (
      age_in_hours-IsAgeOf d (m / 60) (omega (arith, floor m 60 (omega arith)))
        (omega (arith, floor m 60 (omega arith), not_ltb m 60 e)))
]

age_in_seconds-IsAgeOf : (d s : ℕ) → IsWhole 1000 s d → IsAgeOf d (age_in_seconds s)
age_in_seconds-IsAgeOf d s w = elim (Bool-cases (ltb s 60)) [
  | inl e ↦ rw e (ground arith)
  | inr e ↦ rw e (
      age_in_minutes-IsAgeOf d (s / 60) (omega (arith, floor s 60 (omega arith)))
        (omega (arith, floor s 60 (omega arith), not_ltb s 60 e)))
]

-- For an event of the past the page shows its age in whole seconds, minutes or hours, the largest unit of which it has
-- one, without rounding up, and the date once it is a day old.
pub age-IsAgeOf : (now created : ℕ) → created ≤ now → IsAgeOf (now - created) (age now created)
unfolding age
age-IsAgeOf now created h = rw (leb_of_le created now h) (
    age_in_seconds-IsAgeOf (now - created) ((now - created) / 1000)
      (omega (arith, floor (now - created) 1000 (omega arith))))
