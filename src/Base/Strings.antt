-- ===== src/Base/Strings.antt =====
-- `toLowerCase`, `trim`, `startsWith` and `includes` of JavaScript.
use Prim.Native.Nat.{ℕ, ◌+◌}
use mathlib.Core.Bool.{Bool, true, false, not, ◌&&◌, ◌||◌}
use mathlib.Core.List.{[], ◌∷◌, map}
use ventopanel.Base.Tests.{leb, ◌==◌, if◌then◌else◌}
use ventopanel.Base.Texts.{Text, text_eq, truthy}

-- `toLowerCase` on the letters of ASCII; the texts that the program compares with are of these.
abbrev pub lower_char : ℕ → ℕ
lower_char c = if leb b'A' c && leb c b'Z' then c + 32 else c

abbrev pub to_lower : Text → Text
to_lower s = map lower_char s

-- What a space is to `trim`.
abbrev pub is_space : ℕ → Bool
is_space c =
    (leb 9 c && leb c 13)
    || (c == 32)
    || (c == 160)
    || (c == 5760)
    || (leb 8192 c && leb c 8202)
    || (c == 8232)
    || (c == 8233)
    || (c == 8239)
    || (c == 8287)
    || (c == 12288)
    || (c == 65279)

abbrev pub trim_start : Text → Text
trim_start [] = []
trim_start (c ∷ s) = let rest = trim_start s in if is_space c then rest else c ∷ s

abbrev pub trim_end : Text → Text
trim_end [] = []
trim_end (c ∷ s) = let rest = trim_end s in if is_space c && not (truthy rest) then [] else c ∷ rest

-- `s.trim()`
abbrev pub trim : Text → Text
trim s = trim_end (trim_start s)

-- `s.startsWith(t)`
abbrev pub starts_with : Text → Text → Bool
starts_with s [] = true
starts_with [] (d ∷ t) = false
starts_with (c ∷ s) (d ∷ t) = text_eq (c ∷ []) (d ∷ []) && starts_with s t

-- `s.includes(t)`
abbrev pub contains : Text → Text → Bool
contains [] t = starts_with [] t
contains (c ∷ s) t = starts_with (c ∷ s) t || contains s t
