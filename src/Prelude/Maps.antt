-- ===== src/Prelude/Maps.antt =====
-- Go's `map[string]V` as an association list: `m[k]`, `m[k] = v`, and `maps.Equal`.
pub mod Equality
use llm_inference_platform.Prelude.Tests.{eqb, ◌==◌, if◌then◌else◌}
use Prim.Native.Nat.{ℕ, suc}
use Prim.Native.String.{String}
use mathlib.Core.Bool.{Bool, true, false, ◌&&◌}
use mathlib.Core.Option.{Option, none, some}
use mathlib.Core.List.{List, [], ◌∷◌}

abbrev pub Map {ℓ} : Type ℓ → Type ℓ
Map V = List (String × V)

module _ {ℓ} {V : Type ℓ} where
  -- `v, ok := m[k]`
  unfoldable pub lookup : String → Map V → Option V
  lookup k [] = none
  lookup k (entry ∷ rest) = if entry.0 == k then some entry.1 else lookup k rest

  -- `m[k] = v`: a key keeps its place.
  unfoldable pub insert : String → V → Map V → Map V
  insert k v [] = (k, v) ∷ []
  insert k v (entry ∷ rest) = if entry.0 == k then (entry.0, v) ∷ rest else entry ∷ insert k v rest

  -- `len(m)`
  unfoldable pub size : Map V → ℕ
  size [] = 0
  size (_ ∷ rest) = suc (size rest)

abbrev same : Option String → String → Bool
same none v = false
same (some w) v = w == v

-- The loop of `maps.Equal(m1, m2)`, over the entries of `m1`.
entries_in : Map String → Map String → Bool
unfolding lookup
entries_in [] m2 = true
entries_in ((k, v) ∷ m1) m2 = same (lookup k m2) v && entries_in m1 m2

-- `maps.Equal`: the same number of entries, and every entry of the first in the second.
unfoldable pub equal : Map String → Map String → Bool
unfolding entries_in size
equal m1 m2 = eqb (size m1) (size m2) && entries_in m1 m2
