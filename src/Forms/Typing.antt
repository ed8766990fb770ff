-- ===== src/Forms/Typing.antt =====
-- What was typed last into a field.
use ventopanel.Base.{Option, none, some, List, [], ◌∷◌}

abbrev pub some_or {ℓ} : {A : Type ℓ} → Option A → A → A
some_or none a = a
some_or (some b) a = b

-- The last of these entries that is of a kind, or what was there.
abbrev pub last_or {ℓ κ} : {E : Type ℓ} {A : Type κ} → (E → Option A) → A → List E → A
last_or of a [] = a
last_or of a (e ∷ es) = last_or of (some_or (of e) a) es
