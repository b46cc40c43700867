-- ===== src/Base/Counting.antt =====
-- How often a number occurs in a list.
use Prim.Native.Nat.{ℕ, ◌+◌, ◌≤◌}
use mathlib.Core.Path.{◌≡◌}
use mathlib.Core.Bool.{Bool}
use native.Mathlib.Omega.{arith}
use mathlib.Core.List.{List, [], ◌∷◌, ◌++◌}
use opensrthub.Base.Tests.{◌==◌, if◌then◌else◌}

unfoldable pub occurrences : ℕ → List ℕ → ℕ
occurrences pid [] = 0
occurrences pid (x ∷ xs) = (if x == pid then 1 else 0) + occurrences pid xs

-- One occurrence goes: a resource is given back to the system.
unfoldable pub remove : ℕ → List ℕ → List ℕ
remove x [] = []
remove x (y ∷ ys) = let rest = remove x ys in if y == x then ys else y ∷ rest

abbrev pub one_if : Bool → ℕ
one_if b = if b then 1 else 0

pub occurrences-remove :
    (x y : ℕ) (ys : List ℕ)
    → one_if (x == y) ≤ occurrences y ys
    → occurrences y (remove x ys) + one_if (x == y) ≡ occurrences y ys
unfolding occurrences remove
occurrences-remove x y [] h = omega arith
occurrences-remove x y (z ∷ ys) h = ground (arith, occurrences-remove x y ys)

pub occurrences-append :
    (a : ℕ) (xs ys : List ℕ) → occurrences a (xs ++ ys) ≡ occurrences a xs + occurrences a ys
unfolding occurrences
occurrences-append a [] ys = omega arith
occurrences-append a (x ∷ xs) ys = omega (arith, occurrences-append a xs ys)
