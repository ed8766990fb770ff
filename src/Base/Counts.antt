-- ===== src/Base/Counts.antt =====
-- How many entries of a list are of a kind, for requests that wait.
use Prim.Native.Nat.{ℕ, zero, suc, ◌+◌, ◌≤◌}
use mathlib.Core.Path.{◌≡◌, subst}
use mathlib.Core.Logic.{inl, inr}
use mathlib.Core.Bool.{Bool, false}
use mathlib.Core.List.{List, [], ◌∷◌, ◌++◌}
use native.Mathlib.Omega.{arith}
use ventopanel.Base.Tests.{◌==◌, ltb, if◌then◌else◌, Bool-cases, ==_iff}
use ventopanel.Base.Lists.{remove_at}

module _ {A : Type 0} where
  abbrev pub count : (A → Bool) → List A → ℕ
  count p [] = 0
  count p (x ∷ xs) = if p x then suc (count p xs) else count p xs

  -- `isPending` of the mutation whose requests these are.
  abbrev pub pending : (A → Bool) → List A → Bool
  pending p xs = ltb 0 (count p xs)

  pub count-append :
      (p : A → Bool) (xs : List A) (x : A)
      → count p (xs ++ x ∷ []) ≡ count p xs + (if p x then 1 else 0)
  count-append p [] x = ground arith
  count-append p (y ∷ xs) x = ground (arith, count-append p xs x)

  pub count-remove_at : (p : A → Bool) (i : ℕ) (xs : List A) → count p (remove_at i xs) ≤ count p xs
  count-remove_at p i [] = ground arith
  count-remove_at p zero (x ∷ xs) = ground arith
  count-remove_at p (suc i) (x ∷ xs) = ground (arith, count-remove_at p i xs)

  module _ (kind : A → ℕ) where
    abbrev pub is_of : ℕ → A → Bool
    is_of k x = kind x == k

    -- At most one entry of each kind.
    abbrev pub OneOfEach : List A → Type 0
    OneOfEach xs = (k : ℕ) → count (is_of k) xs ≤ 1

    pub OneOfEach-append :
        (xs : List A) (x : A)
        → pending (is_of (kind x)) xs ≡ false
        → OneOfEach xs
        → OneOfEach (xs ++ x ∷ [])
    OneOfEach-append xs x free h k = elim (Bool-cases (kind x == k)) [
      | inl same ↦
          subst (λ j. count (is_of j) (xs ++ x ∷ []) ≤ 1) ((==_iff (kind x) k).0 same)
            (ground (arith, count-append (is_of (kind x)) xs x))
      | inr other ↦ ground (arith, count-append (is_of k) xs x, h k)
    ]

    pub OneOfEach-remove_at : (xs : List A) (i : ℕ) → OneOfEach xs → OneOfEach (remove_at i xs)
    OneOfEach-remove_at xs i h k = omega (arith, h k, count-remove_at (is_of k) i xs)
