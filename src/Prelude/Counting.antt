-- ===== src/Prelude/Counting.antt =====
-- How often a test holds in a list. Two lists hold the same items, in any order, when every test
-- holds equally often in both.
use Prim.Native.Nat.{ℕ, zero, suc, ◌+◌}
use mathlib.Core.Path.{◌≡◌}
use mathlib.Core.Bool.{Bool}
use mathlib.Core.List.{List, [], ◌∷◌, ◌++◌}
use mathlib.Core.Option.{some}
use native.Mathlib.Omega.{arith}
use gostats.Prelude.Checks.{if◌then◌else◌}
use gostats.Prelude.Lists.{get_elem?, set}

abbrev pub one_if : Bool → ℕ
one_if b = if b then 1 else 0

abbrev pub tally {ℓ} : {A : Type ℓ} → (A → Bool) → List A → ℕ
tally p [] = 0
tally p (x ∷ xs) = one_if (p x) + tally p xs

abbrev pub SameItems {ℓ} : {A : Type ℓ} → List A → List A → Type ℓ
SameItems {A} xs ys = (p : A → Bool) → tally p xs ≡ tally p ys

module _ {ℓ} {A : Type ℓ} (p : A → Bool) where
  pub tally-append : (xs ys : List A) → tally p (xs ++ ys) ≡ tally p xs + tally p ys
  tally-append [] ys = omega arith
  tally-append (x ∷ xs) ys = omega (arith, tally-append xs ys)

  -- A write trades the old item for the new one.
  pub tally-set :
      (xs : List A) (i : ℕ) (old new : A)
      → get_elem? xs i ≡ some old
      → tally p (set xs i new) + one_if (p old) ≡ tally p xs + one_if (p new)
  tally-set [] i old new h = absurd (cc)
  tally-set (x ∷ xs) zero old new h = ground arith
  tally-set (x ∷ xs) (suc i) old new h = omega (arith, tally-set xs i old new h)
