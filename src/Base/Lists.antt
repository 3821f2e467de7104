-- ===== src/Base/Lists.antt =====
-- Lists measured by native numbers, and the predicates and searches of package `slices`.
use Prim.Native.Nat.{ℕ, suc, ◌+◌}
use Prim.Native.String.{String}
use mathlib.Core.Path.{◌≡◌}
use mathlib.Core.Bool.{Bool, true, false, ◌||◌, ◌&&◌}
use mathlib.Core.List.{List, [], ◌∷◌, ◌++◌}
use native.Mathlib.Omega.{arith}
use takt_ai.Base.Tests.{◌==◌, eqb}

module _ {ℓ} {A : Type ℓ} where
  abbrev pub length : List A → ℕ
  length [] = 0
  length (x ∷ xs) = suc (length xs)

  pub length-append : (xs ys : List A) → length (xs ++ ys) ≡ length xs + length ys
  length-append [] ys = omega arith
  length-append (x ∷ xs) ys = omega (arith, length-append xs ys)

  -- slices.ContainsFunc
  abbrev pub any : (A → Bool) → List A → Bool
  any f [] = false
  any f (x ∷ xs) = f x || any f xs

  abbrev pub all : (A → Bool) → List A → Bool
  all f [] = true
  all f (x ∷ xs) = f x && all f xs

  abbrev pub All {κ} : (A → Type κ) → List A → Type κ
  All P [] = Unit
  All P (x ∷ xs) = P x × All P xs

-- slices.Contains on strings.
abbrev pub contains : List String → String → Bool
contains [] a = false
contains (x ∷ xs) a = x == a || contains xs a

-- slices.Contains on numbers.
abbrev pub contains_id : List ℕ → ℕ → Bool
contains_id [] a = false
contains_id (x ∷ xs) a = eqb x a || contains_id xs a

-- slices.Equal on strings.
abbrev pub equal : List String → List String → Bool
equal [] [] = true
equal (s ∷ left) (t ∷ right) = equal left right && s == t
equal left right = false
