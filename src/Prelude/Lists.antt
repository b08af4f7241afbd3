-- ===== src/Prelude/Lists.antt =====
-- Predicates and searches on lists.
use mathlib.Core.Path.{◌≡◌, refl}
use mathlib.Core.Logic.{◌⊎◌}
use mathlib.Core.Option.{Option, none, some}
use mathlib.Core.List.{List, [], ◌∷◌, ◌++◌}
use native.Mathlib.Omega.{arith}

module _ {ℓ} {A : Type ℓ} where
  abbrev pub All {κ} : (A → Type κ) → List A → Type κ
  All P [] = Unit
  All P (x ∷ xs) = P x × All P xs

  abbrev pub Any : (A → Type 0) → List A → Type 0
  Any P [] = ⊥
  Any P (x ∷ xs) = P x ⊎ Any P xs

-- The first value that `f` gives on the list.
unfoldable pub first {ℓ κ} : {A : Type ℓ} {B : Type κ} → (A → Option B) → List A → Option B
first f [] = none
first f (x ∷ xs) = elim (f x) [ some y ↦ some y | none ↦ first f xs ]

unfoldable pub or_else {ℓ} : {A : Type ℓ} → Option A → Option A → Option A
or_else (some a) o = some a
or_else none o = o

module _ {ℓ κ} {A : Type ℓ} {B : Type κ} (f : A → Option B) where
  pub first-append : (xs ys : List A) → first f (xs ++ ys) ≡ or_else (first f xs) (first f ys)
  unfolding first or_else
  first-append [] ys = refl
  first-append (x ∷ xs) ys = ground (arith, first-append xs ys)
