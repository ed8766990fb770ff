-- ===== src/Base/Buffers.antt =====
-- Buffers that are cut to their last entries, and entries that are picked out of a list.
use Prim.Native.Nat.{ℕ, zero, suc, ◌-◌, ◌≤◌}
use mathlib.Core.Path.{◌≡◌, sym, subst}
use mathlib.Core.List.{List, [], ◌∷◌, ◌++◌}
use mathlib.Core.Option.{some}
use native.Mathlib.Omega.{arith}
use ventopanel.Base.Tests.{ltb, if◌then◌else◌}
use ventopanel.Base.Lists.{
  length, get_elem?, take_last, remove_at, All, All-append, All-drop, take_last_of_short,
  length-take_last,
}

-- What holds of a list's entries holds of one that is picked, and of the others.
pub All-get_elem? {ℓ κ} :
    {A : Type ℓ} (P : A → Type κ) (xs : List A) (i : ℕ) (x : A)
    → All P xs
    → get_elem? xs i ≡ some x
    → P x × All P (remove_at i xs)
All-get_elem? P [] i x h e = cc
All-get_elem? P (y ∷ xs) zero x h e = (let same : y ≡ x = cc in subst P same h.0, h.1)
All-get_elem? P (y ∷ xs) (suc i) x h e =
    let (holds, rest) = All-get_elem? P xs i x h.1 e in (holds, (h.0, rest))

-- A buffer that grows at its end and is cut to its last `n` entries.
abbrev pub push_last : {A : Type 0} → ℕ → List A → A → List A
push_last n prev x =
    let next = prev ++ x ∷ [] in if ltb n (length next) then take_last n next else next

pub push_last-take_last :
    {A : Type 0} (n : ℕ) (prev : List A) (x : A) → push_last n prev x ≡ take_last n (prev ++ x ∷ [])
push_last-take_last n prev x = ground (arith, take_last_of_short n (prev ++ x ∷ []))

pub length-push_last :
    {A : Type 0} (n : ℕ) (prev : List A) (x : A) → length (push_last n prev x) ≤ n
length-push_last n prev x =
    rw (push_last-take_last n prev x) (omega (arith, length-take_last n (prev ++ x ∷ [])))

pub All-push_last {κ} :
    {A : Type 0} (P : A → Type κ) (n : ℕ) (prev : List A) (x : A)
    → All P prev
    → P x
    → All P (push_last n prev x)
All-push_last P n prev x h p = subst (All P) (sym (push_last-take_last n prev x)) (
    All-drop P (length (prev ++ x ∷ []) - n) (prev ++ x ∷ [])
      (All-append P prev (x ∷ []) h (p, tt)))
