-- ===== src/Base/Counts.antt =====
-- How often a number is in a list, and what that says of where it stands.
use Prim.Native.Nat.{ℕ, ◌+◌, ◌<◌}
use mathlib.Core.Path.{◌≡◌, ap}
use mathlib.Core.Logic.{inl, inr}
use mathlib.Core.List.{List, [], ◌∷◌, ◌++◌}
use native.Mathlib.Omega.{arith}
use modbus_vault.Base.Tests.{if◌then◌else◌, ◌==◌, Bool-cases}

abbrev pub occurrences : ℕ → List ℕ → ℕ
occurrences i [] = 0
occurrences i (x ∷ xs) = (if x == i then 1 else 0) + occurrences i xs

pub occurrences-append :
    (i : ℕ) (xs ys : List ℕ) → occurrences i (xs ++ ys) ≡ occurrences i xs + occurrences i ys
occurrences-append i [] ys = omega arith
occurrences-append i (x ∷ xs) ys = omega (arith, occurrences-append i xs ys)

-- A list that counts `i` splits at one of its occurrences.
pub occurs-split :
    (i : ℕ) (xs : List ℕ)
    → 0 < occurrences i xs
    → (before : List ℕ) × (after : List ℕ) × (xs ≡ before ++ i ∷ after)
occurs-split i [] h = absurd (omega arith)
occurs-split i (x ∷ xs) h = elim (Bool-cases (x == i)) [
  | inl same ↦ ([], xs, ap (λ y. y ∷ xs) (ground (arith, same)))
  | inr apart ↦
      let (before, after, eq) = occurs-split i xs (ground (arith, h, apart)) in
      (x ∷ before, after, ap (◌∷◌ x) eq)
]
