-- ===== src/Prelude/Maps/Equality.antt =====
-- What `maps.Equal` decides, for maps as Go has them: with one entry for a key.
use llm_inference_platform.Prelude.Tests.{◌==◌, if◌then◌else◌}
use text.Mathlib.TextEquality.{eq_iff}
use llm_inference_platform.Prelude.Maps.{Map, lookup, size, same, entries_in, equal}
use Prim.Native.Nat.{suc, ◌≤◌}
use Prim.Native.String.{String}
use mathlib.Core.Path.{◌≡◌, refl, sym, ap, ◌∙◌}
use mathlib.Core.Logic.{◌↔◌}
use mathlib.Core.Bool.{true}
use mathlib.Core.Option.{Option, none, some}
use mathlib.Core.List.{[], ◌∷◌}
use native.Mathlib.Omega.{arith}

-- No key occurs twice.
abbrev pub Distinct : Map String → Type 0
Distinct [] = Unit
Distinct ((k, v) ∷ m) = (lookup k m ≡ none) × Distinct m

-- The map without its first entry for a key.
unfoldable erase : String → Map String → Map String
erase k [] = []
erase k ((j, v) ∷ m) = if j == k then m else (j, v) ∷ erase k m

lookup-erase :
    (j k : String) (m : Map String)
    → Distinct m
    → lookup j (erase k m) ≡ (if k == j then none else lookup j m)
unfolding lookup erase
lookup-erase j k [] d = ground arith
lookup-erase j k ((i, v) ∷ m) d =
    ground (arith, eq_iff i k, eq_iff k j, eq_iff i j, lookup-erase j k m d.1)

Distinct-erase : (k : String) (m : Map String) → Distinct m → Distinct (erase k m)
unfolding erase
Distinct-erase k [] d = tt
Distinct-erase k ((j, v) ∷ m) d =
    ground (arith, eq_iff j k, lookup-erase j k m d.1, Distinct-erase k m d.1)

size-erase : (k v : String) (m : Map String) → lookup k m ≡ some v → suc (size (erase k m)) ≡ size m
unfolding lookup erase size
size-erase k v [] h = ground arith
size-erase k v ((j, w) ∷ m) h = ground (arith, size-erase k v m)

entries_in-erase :
    (k : String) (a b : Map String)
    → Distinct b
    → lookup k a ≡ none
    → entries_in a b ≡ true
    → entries_in a (erase k b) ≡ true
unfolding entries_in lookup
entries_in-erase k [] b d h e = refl
entries_in-erase k ((j, v) ∷ a) b d h e =
    ground (arith, eq_iff j k, eq_iff k j, lookup-erase j k b d, entries_in-erase k a b d)

same-some : (o : Option String) (v : String) → same o v ≡ true → o ≡ some v
same-some none v e = ground arith
same-some (some w) v e = ap some ((eq_iff w v).0 e)

-- A map whose entries are all in another that is no larger agrees with it everywhere.
entries_in-lookup :
    (a b : Map String)
    → Distinct a
    → Distinct b
    → entries_in a b ≡ true
    → size b ≤ size a
    → (k : String) → lookup k a ≡ lookup k b
unfolding entries_in lookup size
entries_in-lookup [] [] da db e n k = refl
entries_in-lookup [] (_ ∷ b) da db e n k = let no : ⊥ = omega arith in absurd no
entries_in-lookup ((j, v) ∷ a) b da db e n k =
    let found : lookup j b ≡ some v = same-some (lookup j b) v (ground arith) in
    let counted = size-erase j v b found in
    let rest =
      entries_in-lookup a (erase j b) da.1 (Distinct-erase j b db)
        (entries_in-erase j a b db da.0 (ground arith)) (omega arith) k in
    ground (arith, eq_iff j k, lookup-erase k j b db)

lookup-entries_in :
    (a b : Map String)
    → Distinct a
    → ((k v : String) → lookup k a ≡ some v → lookup k b ≡ some v)
    → entries_in a b ≡ true
unfolding entries_in lookup
lookup-entries_in [] b d f = refl
lookup-entries_in ((j, v) ∷ a) b d f =
    let found : lookup j b ≡ some v = f j v (ground (arith, eq_iff j j)) in
    let rest = lookup-entries_in a b d.1 (λ k w h. f k w (ground (arith, eq_iff j k))) in
    ground (arith, eq_iff v v)

entries_in-size :
    (a b : Map String) → Distinct a → Distinct b → entries_in a b ≡ true → size a ≤ size b
unfolding entries_in lookup size
entries_in-size [] b da db e = omega arith
entries_in-size ((j, v) ∷ a) b da db e =
    let rest =
      entries_in-size a (erase j b) da.1 (Distinct-erase j b db)
        (entries_in-erase j a b db da.0 (ground arith)) in
    let found : lookup j b ≡ some v = same-some (lookup j b) v (ground arith) in
    ground (arith, size-erase j v b found)

-- `maps.Equal` finds two maps equal exactly if they have the same value, or none, at every key.
pub equal-Same :
    (a b : Map String)
    → Distinct a
    → Distinct b
    → (equal a b ≡ true) ↔ ((k : String) → lookup k a ≡ lookup k b)
unfolding equal
equal-Same a b da db = (
  λ e. entries_in-lookup a b da db (ground arith) (ground arith),
  λ f.
      let ab = lookup-entries_in a b da (λ k v h. sym (f k) ∙ h) in
      let ba = lookup-entries_in b a db (λ k v h. f k ∙ h) in
      let le = entries_in-size a b da db ab in
      let ge = entries_in-size b a db da ba in ground arith,
)
