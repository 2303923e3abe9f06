-- ===== src/Common/Counts.antt =====
-- How often a number is in a list.
use Prim.Native.Nat.{ℕ, suc, ◌+◌}
use mathlib.Core.Path.{◌≡◌}
use mathlib.Core.Bool.{Bool, true, false}
use mathlib.Core.List.{List, [], ◌∷◌, ◌++◌}
use native.Mathlib.Omega.{arith}
use android_vendor_sobjectiz.Common.Tests.{◌==◌, if◌then◌else◌}

abbrev pub times : ℕ → List ℕ → ℕ
times n [] = 0
times n (x ∷ xs) = if x == n then suc (times n xs) else times n xs

abbrev pub one_if : Bool → ℕ
one_if true = 1
one_if false = 0

pub times-append : (n : ℕ) (xs ys : List ℕ) → times n (xs ++ ys) ≡ times n xs + times n ys
times-append n [] ys = omega arith
times-append n (x ∷ xs) ys = ground (arith, times-append n xs ys)
