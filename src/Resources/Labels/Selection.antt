-- ===== src/Resources/Labels/Selection.antt =====
-- The selector and the labels of the pods.
use llm_inference_platform.Prelude.{String, ◌≡◌, ◌↔◌, eq_iff, true, some, [], ◌∷◌, arith}
use llm_inference_platform.Prelude.Maps.{Map, lookup, equal}
use llm_inference_platform.V1alpha1.{InferenceService}
use llm_inference_platform.Resources.Labels.{selector_labels, pod_labels}

-- A label query: every pair that it names is among the labels.
abbrev pub Selects : Map String → Map String → Type 0
Selects [] labels = Unit
Selects ((k, v) ∷ query) labels = (lookup k labels ≡ some v) × Selects query labels

-- The selector selects the pod labels of a service exactly if the two services have one name: of its
-- own pods, whatever their backend and classification, and of no other service's.
pub selector_labels-Selects :
    (svc other : InferenceService)
    → Selects (selector_labels svc) (pod_labels other) ↔ (svc.name ≡ other.name)
unfolding selector_labels pod_labels lookup
selector_labels-Selects svc other = ground arith

-- `maps.Equal` finds the selectors of two services equal exactly if the services have one name.
pub equal-selector_labels :
    (a b : InferenceService)
    → (equal (selector_labels a) (selector_labels b) ≡ true) ↔ (a.name ≡ b.name)
unfolding equal selector_labels lookup
equal-selector_labels a b = ground (arith, eq_iff a.name b.name, eq_iff b.name a.name)
